-- ===== src/Access/Menu.antt =====
-- `filter_portal_config` of app/access.py.
pub mod Keeps
pub mod Policy
use masterportal_admin.Base.{
  String, Bool, Option, List, [], ◌∷◌, Result, ok, err, attribute_error, type_error, ◌>>=◌,
  keep_result, map_result, get_elem?,
}
use masterportal_admin.Base.Dict
use masterportal_admin.Base.Dict.{Dict}
use masterportal_admin.Json.{Value, null, arr, obj, str, Fields, end, to_list, of_list}
use masterportal_admin.Json.Object.{set, get_or, iterate}
use masterportal_admin.Access.{roles_satisfy}

-- `restricted.get(t, set())`; a list or a dict cannot be hashed, and no other value is a text.
unfoldable pub required_roles : Dict (List String) → Value → Result (List String)
required_roles restricted (str t) = ok (Dict.get_or t [] restricted)
required_roles restricted (arr _) = err type_error
required_roles restricted (obj _) = err type_error
required_roles restricted _ = ok []

unfoldable pub module_ok : Dict (List String) → Option (List String) → Value → Result Bool
unfolding required_roles
module_ok restricted uroles el = do
  t ← get_or el "type" null
  required ← required_roles restricted t
  ok (roles_satisfy required uroles)

-- `[el for el in section if module_ok(el)]`
unfoldable pub filter_section : Dict (List String) → Option (List String) → Value → Result Value
unfolding module_ok
filter_section restricted uroles section = do
  els ← iterate section
  kept ← keep_result (module_ok restricted uroles) els
  ok (arr (of_list kept))

abbrev with_sections : String → Value → Value → List Value → Value
with_sections menu (obj pc) (obj m) sections =
    obj (set menu (obj (set "sections" (arr (of_list sections)) m)) pc)
with_sections menu pc m sections = pc

-- `if isinstance(sections, list): …`, for `sections` of the menu `m`.
unfoldable pub filter_sections :
    Dict (List String) → Option (List String) → String → Value → Value → Value → Result Value
unfolding filter_section
filter_sections restricted uroles menu pc m (arr ss) = do
  kept ← map_result (filter_section restricted uroles) (to_list ss)
  ok (with_sections menu pc m kept)
filter_sections restricted uroles menu pc m _ = ok pc

-- One round of the loop over the two menus.
unfoldable pub filter_menu :
    Dict (List String) → Option (List String) → String → Value → Result Value
unfolding filter_sections
filter_menu restricted uroles menu pc = do
  m ← get_or pc menu (obj end)
  sections ← get_or m "sections" null
  filter_sections restricted uroles menu pc m sections

unfoldable pub filter_portal_config :
    Value → Dict (List String) → Option (List String) → Result Value
unfolding filter_menu
filter_portal_config pc [] uroles = ok pc
filter_portal_config pc (r ∷ restricted) uroles = do
  pc' ← filter_menu (r ∷ restricted) uroles "mainMenu" pc
  filter_menu (r ∷ restricted) uroles "secondaryMenu" pc'
