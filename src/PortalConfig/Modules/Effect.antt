-- ===== src/PortalConfig/Modules/Effect.antt =====
-- What enabling and disabling a module does to the modules of a menu.
use masterportal_admin.Base.{
  String, Bool, true, false, ◌==◌, eq_iff, List, [], ◌∷◌, ◌++◌, any, all, contains, eq_refl, map,
  Result, ok, err, Error, ◌>>=◌, >>=-eq-ok, ok-injective, map_result, ◌≡◌, refl, sym, ap, ◌∙◌,
  arith, Bool-cases, Option-cases, inl, inr,
}
use masterportal_admin.Json.{
  Value, null, bool, int, float, arr, obj, str, nil, Fields, end, to_list, of_list, to_list-of_list,
}
use masterportal_admin.Json.Object.{get, set, get-set, get_or, or_else, is_true, iterate}
use masterportal_admin.Json.Update.{is_text, value_or, with_default}
use masterportal_admin.Access.Menu.Keeps.{entry}
use masterportal_admin.PortalConfig.{modules, module_type}
use masterportal_admin.PortalConfig.Modules.{
  is_module, section_types, sections_types, menu_module_types, one_section, append_section,
  append_last, section_without, change_sections, default_sections, change_menu, known_menu,
  known_module, set_module,
}
use masterportal_admin.PortalConfig.Modules.Sections.{
  changed_types, sections_types-without, sections_types-append,
}

-- The module types of a list of sections.
abbrev pub types_of : Value → Result (List Value)
types_of sections = iterate sections >>= sections_types

types_of-default_sections : (d : Fields) → types_of (default_sections d) ≡ menu_module_types (obj d)
unfolding menu_module_types get_or or_else iterate sections_types section_types is_true
types_of-default_sections d = elim (Option-cases (get "sections" d)) [
  | inl missing ↦ rw (missing, get_or) refl
  | inr (v, found) ↦ elim (Bool-cases (is_true v)) [
    | inl kept ↦ rw (found, get_or) (rw (kept, or_else) refl)
    | inr empty ↦ rw (found, get_or) (rw (empty, or_else) refl)
  ]
]

is_true-default_sections : (d : Fields) → is_true (default_sections d) ≡ true
unfolding or_else is_true
is_true-default_sections d = elim (Bool-cases (is_true (value_or one_section (get "sections" d)))) [
  | inl kept ↦ rw (kept, or_else) kept
  | inr empty ↦ rw (empty, or_else) refl
]

menu_module_types-set :
    (d : Fields) (changed : Value)
    → menu_module_types (obj (set "sections" changed d)) ≡ types_of (or_else changed (arr nil))
unfolding menu_module_types get_or
menu_module_types-set d changed = rw (get-set "sections" "sections" changed d, get_or) refl

types_of_list :
    (vs : List Value) → types_of (or_else (arr (of_list vs)) (arr nil)) ≡ sections_types vs
unfolding or_else is_true iterate
types_of_list [] = refl
types_of_list (v ∷ vs) = ap (λ ws. sections_types (v ∷ ws)) (to_list-of_list vs)

append_last-types :
    (type : String) (sections changed : Value) (types : List Value)
    → is_module (str type) ≡ true
    → append_last type sections ≡ ok changed
    → types_of sections ≡ ok types
    → types_of (or_else changed (arr nil)) ≡ ok (types ++ str type ∷ [])
unfolding iterate
append_last-types type (arr vs) changed types m h k =
    let (new, h1, h2) = >>=-eq-ok (append_section type (to_list vs)) _ h in
    rw (← ok-injective h2)
      (types_of_list new ∙ sections_types-append type (to_list vs) new types m h1 k)
append_last-types type (obj d) changed types m h k = cc
append_last-types type (str s) changed types m h k = cc
append_last-types type null changed types m h k = cc
append_last-types type (bool b) changed types m h k = cc
append_last-types type (int n) changed types m h k = cc
append_last-types type (float r) changed types m h k = cc

change_sections-types :
    (enabled : Bool) (type : String) (menu sections changed : Value)
    → is_module (str type) ≡ true
    → is_true sections ≡ true
    → types_of sections ≡ menu_module_types menu
    → change_sections enabled type menu sections ≡ ok changed
    → (types : List Value) × (menu_module_types menu ≡ ok types)
      × (types_of (or_else changed (arr nil)) ≡ ok (changed_types enabled type types))
unfolding change_sections or_else
change_sections-types true type menu sections changed m full same h =
    let (types, h1, h2) = >>=-eq-ok (menu_module_types menu) _ h in
    elim (Bool-cases (any (is_text type) types)) [
      | inl there ↦
          let e : sections ≡ changed = ok-injective (rw there at h2) in
          (types, h1, rw there (rw (← e) (rw (full, or_else) (same ∙ h1))))
      | inr missing ↦ (
        types,
        h1,
        rw missing (append_last-types type sections changed types m (rw missing at h2) (same ∙ h1)),
      )
    ]
change_sections-types false type menu sections changed m full same h =
    let (ss, h1, h2) = >>=-eq-ok (iterate sections) _ h in
    let (new, h3, h4) = >>=-eq-ok (map_result (section_without type) ss) _ h2 in
    let (types, e, e') = sections_types-without type ss new h3 in
    (types, sym same ∙ rw (h1, e) refl, rw (← ok-injective h4) (types_of_list new ∙ e'))

-- The module types of one menu of a configuration.
abbrev pub menu_types : String → Value → Result (List Value)
menu_types menu pc = get_or pc menu (obj end) >>= menu_module_types

all-contains :
    (p : String → Bool) (xs : List String) (a : String)
    → all p xs ≡ true
    → contains xs a ≡ true
    → p a ≡ true
all-contains p [] a h k = cc
all-contains p (x ∷ xs) a h k = ground (arith, all-contains p xs a, eq_iff x a)

known_module-ok :
    (type t : String) → known_module (str type) ≡ ok t → (t ≡ type) × (is_module (str type) ≡ true)
unfolding modules is_true
known_module-ok type t h = elim (Bool-cases (contains (map module_type modules) type)) [
  | inl known ↦ (
    sym (ok-injective (rw known at h)),
    all-contains (λ t. is_module (str t)) (map module_type modules) type refl known,
  )
  | inr unknown ↦ let h' : err Error.value_error ≡ ok t = rw unknown at h in cc
]

known_menu-ok : (menu m : String) → known_menu (str menu) ≡ ok m → m ≡ menu
known_menu-ok menu m h = elim (Bool-cases (contains ("mainMenu" ∷ "secondaryMenu" ∷ []) menu)) [
  | inl known ↦ sym (ok-injective (rw known at h))
  | inr unknown ↦ let h' : err Error.value_error ≡ ok m = rw unknown at h in cc
]

change_menu-types :
    (enabled : Bool) (type : String) (menu changed : Value)
    → is_module (str type) ≡ true
    → change_menu enabled type menu ≡ ok changed
    → (types : List Value) × (menu_module_types menu ≡ ok types)
      × (menu_module_types changed ≡ ok (changed_types enabled type types))
unfolding change_menu
change_menu-types enabled type (obj d) changed m h =
    let (new, h1, h2) = >>=-eq-ok (change_sections enabled type (obj d) (default_sections d)) _ h in
    let (types, e, e') =
      change_sections-types enabled type (obj d) (default_sections d) new m
        (is_true-default_sections d) (types_of-default_sections d) h1 in
    (types, e, rw (← ok-injective h2) (menu_module_types-set d new ∙ e'))
change_menu-types enabled type (arr vs) changed m h = cc
change_menu-types enabled type (str s) changed m h = cc
change_menu-types enabled type null changed m h = cc
change_menu-types enabled type (bool b) changed m h = cc
change_menu-types enabled type (int n) changed m h = cc
change_menu-types enabled type (float r) changed m h = cc

get_or-value_or :
    (d : Fields) (k : String) (default : Value)
    → get_or (obj d) k default ≡ ok (value_or default (get k d))
unfolding get_or
get_or-value_or d k default = elim (Option-cases (get k d)) [
  | inl e ↦ rw (e, get_or) refl
  | inr (v, e) ↦ rw (e, get_or) refl
]

with_default-types :
    (enabled : Bool) (menu type : String) (pc changed : Value)
    → is_module (str type) ≡ true
    → with_default menu (obj end) (change_menu enabled type) pc ≡ ok changed
    → (types : List Value) × (menu_types menu pc ≡ ok types)
      × (menu_types menu changed ≡ ok (changed_types enabled type types))
      × ((k : String) → (k == menu) ≡ false → entry k changed ≡ entry k pc)
unfolding get_or
with_default-types enabled menu type (obj d) changed m h =
    let (w, h1, h2) = >>=-eq-ok (change_menu enabled type (value_or (obj end) (get menu d))) _ h in
    let (types, e, e') = change_menu-types enabled type (value_or (obj end) (get menu d)) w m h1 in
    rw (← ok-injective h2) (
      types,
      rw (get_or-value_or d menu (obj end)) e,
      rw (get-set menu menu w d, get_or) (rw (eq_refl menu) e'),
      λ k other. get-set menu k w d ∙ ground (arith, eq_iff menu k, eq_iff k menu),
    )
with_default-types enabled menu type (arr vs) changed m h = cc
with_default-types enabled menu type (str s) changed m h = cc
with_default-types enabled menu type null changed m h = cc
with_default-types enabled menu type (bool b) changed m h = cc
with_default-types enabled menu type (int n) changed m h = cc
with_default-types enabled menu type (float r) changed m h = cc

-- If set_module returns, then the module types of the menu are known before it, and after it they are
-- the same without the module if it was disabled; the same if it was enabled and is there; and the
-- same with it at the end if it was enabled and is not there. Every entry of the configuration under
-- another key is unchanged.
pub menu_types-set_module :
    (pc changed : Value) (menu type : String) (enabled : Bool) (k : String)
    → set_module pc (str menu) (str type) enabled ≡ ok changed
    → (k == menu) ≡ false
    → (types : List Value) × (menu_types menu pc ≡ ok types)
      × (menu_types menu changed ≡ ok (changed_types enabled type types))
      × (entry k changed ≡ entry k pc)
unfolding set_module
menu_types-set_module pc changed menu type enabled k h apart =
    let (m, h1, h2) = >>=-eq-ok (known_menu (str menu)) _ h in
    let (t, h3, h4) = >>=-eq-ok (known_module (str type)) _ h2 in
    let (same_type, listed) = known_module-ok type t h3 in
    let (types, before, after, frame) =
      with_default-types enabled menu type pc changed listed
        (rw (known_menu-ok menu m h1, same_type) at h4) in
    (types, before, after, frame k apart)
