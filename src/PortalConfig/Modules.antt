-- ===== src/PortalConfig/Modules.antt =====
-- `_menu_module_types` and `set_module` of app/portalcfg.py.
pub mod Sections
pub mod Effect
use masterportal_admin.Base.{
  String, Bool, true, false, not, ◌&&◌, ◌||◌, Option, none, some, List, [], ◌∷◌, ◌++◌, any, map,
  contains, Result, ok, err, attribute_error, type_error, key_error, index_error, value_error,
  ◌>>=◌, if◌then◌else◌, keep_result, map_result,
}
use masterportal_admin.Json.{
  Value, null, arr, obj, str, Items, nil, cons, Fields, end, field, to_list, of_list,
}
use masterportal_admin.Json.Object.{get, set, get_or, or_else, is_true, iterate}
use masterportal_admin.Json.Update.{is_text, value_or, with_default}
use masterportal_admin.PortalConfig.{modules, module_type}

-- `t and t != "folder"`
abbrev pub is_module : Value → Bool
is_module t = is_true t && not (is_text "folder" t)

-- The inner loop over one section.
unfoldable pub section_types : List Value → Result (List Value)
section_types [] = ok []
section_types (el ∷ els) = do
  t ← get_or el "type" null
  rest ← section_types els
  ok (if is_module t then t ∷ rest else rest)

unfoldable pub sections_types : List Value → Result (List Value)
sections_types [] = ok []
sections_types (section ∷ sections) = do
  els ← iterate section
  own ← section_types els
  rest ← sections_types sections
  ok (own ++ rest)

unfoldable pub menu_module_types : Value → Result (List Value)
menu_module_types menu = do
  s ← get_or menu "sections" (arr nil)
  sections ← iterate (or_else s (arr nil))
  sections_types sections

-- `[[]]`
abbrev pub one_section : Value
one_section = arr (cons (arr nil) nil)

-- `{"type": module_type}`
abbrev pub module_entry : String → Value
module_entry type = obj (field "type" (str type) end)

-- `sections[-1].append({"type": module_type})`, on a list.
unfoldable pub append_section : String → List Value → Result (List Value)
append_section type [] = err index_error
append_section type (arr els ∷ []) = ok (arr (of_list (to_list els ++ module_entry type ∷ [])) ∷ [])
append_section type (v ∷ []) = err attribute_error
append_section type (v ∷ w ∷ rest) = do changed ← append_section type (w ∷ rest); ok (v ∷ changed)

abbrev pub append_last : String → Value → Result Value
append_last type (arr vs) = do
  changed ← append_section type (to_list vs)
  ok (arr (of_list changed))
append_last type (obj d) = err key_error
append_last type (str s) = err attribute_error
append_last type v = err type_error

abbrev pub is_other : String → Value → Result Bool
is_other type el = do t ← get_or el "type" null; ok (not (is_text type t))

-- `section[:] = [el for el in section if el.get("type") != module_type]`. A text or a dict fails at its
-- first character or key, or at the assignment if it has none.
unfoldable pub section_without : String → Value → Result Value
section_without type (arr els) = do
  kept ← keep_result (is_other type) (to_list els)
  ok (arr (of_list kept))
section_without type (str s) = if is_true (str s) then err attribute_error else err type_error
section_without type (obj d) = if is_true (obj d) then err attribute_error else err type_error
section_without type v = err type_error

abbrev pub remove_all : String → Value → Result Value
remove_all type v = do
  sections ← iterate v
  changed ← map_result (section_without type) sections
  ok (arr (of_list changed))

-- The sections after the change, from the menu and its sections.
unfoldable pub change_sections : Bool → String → Value → Value → Result Value
change_sections true type menu sections = do
  types ← menu_module_types menu
  (if any (is_text type) types then ok sections else append_last type sections)
change_sections false type menu sections = remove_all type sections

-- `m.setdefault("sections", [[]]) or [[]]`
abbrev pub default_sections : Fields → Value
default_sections d = or_else (value_or one_section (get "sections" d)) one_section

unfoldable pub change_menu : Bool → String → Value → Result Value
change_menu enabled type (obj d) = do
  changed ← change_sections enabled type (obj d) (default_sections d)
  ok (obj (set "sections" changed d))
change_menu enabled type v = err attribute_error

abbrev pub menus : List String
menus = "mainMenu" ∷ "secondaryMenu" ∷ []

-- `menu not in (…)`, then `module_type not in MODULES`, which wants a value that can be hashed.
abbrev pub known_menu : Value → Result String
known_menu (str menu) = if contains menus menu then ok menu else err value_error
known_menu v = err value_error

abbrev pub known_module : Value → Result String
known_module (str type) =
    if contains (map module_type modules) type then ok type else err value_error
known_module (arr vs) = err type_error
known_module (obj d) = err type_error
known_module v = err value_error

unfoldable pub set_module : Value → Value → Value → Bool → Result Value
set_module pc menu type enabled = do
  m ← known_menu menu
  t ← known_module type
  with_default m (obj end) (change_menu enabled t) pc
