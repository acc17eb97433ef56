-- ===== src/PortalConfig/Modules/Sections.antt =====
-- What a change does to the module types of a menu's sections.
use masterportal_admin.Base.{
  String, Bool, true, false, not, List, [], ◌∷◌, ◌++◌, any, keep, keep-append, ok, err, Error,
  >>=-eq-ok, ok-injective, if◌then◌else◌, keep_result, map_result, ◌≡◌, refl, sym, ap, ◌∙◌, arith,
  Bool-cases, inl, inr,
}
use mathlib.Core.List.{append_assoc, append-nil}
use masterportal_admin.Json.{Value, null, bool, int, float, arr, obj, str, to_list, to_list-of_list}
use masterportal_admin.Json.Object.{get, get_or, is_true, iterate}
use masterportal_admin.Json.Update.{is_text}
use masterportal_admin.PortalConfig.Modules.{
  is_module, section_types, sections_types, module_entry, append_section, is_other, section_without,
}

-- The module types without one.
abbrev pub without : String → List Value → List Value
without type types = keep (λ t. not (is_text type t)) types

-- The module types that a change is to leave.
abbrev pub changed_types : Bool → String → List Value → List Value
changed_types true type types = if any (is_text type) types then types else types ++ str type ∷ []
changed_types false type types = without type types

-- Elements: those that are kept, and their types.
section_types-keep :
    (type : String) (els kept : List Value)
    → keep_result (is_other type) els ≡ ok kept
    → (types : List Value) × (section_types els ≡ ok types)
      × (section_types kept ≡ ok (without type types))
unfolding section_types keep_result
section_types-keep type [] kept h = ([], refl, rw (← ok-injective h) refl)
section_types-keep type (el ∷ els) kept h =
    let (b, h1, h2) = >>=-eq-ok (is_other type el) _ h in
    let (rest, h3, h4) = >>=-eq-ok (keep_result (is_other type) els) _ h2 in
    let (t, h5, h6) = >>=-eq-ok (get_or el "type" null) _ h1 in
    let (types, e, e') = section_types-keep type els rest h3 in
    let all_types : section_types (el ∷ els) ≡ ok (if is_module t then t ∷ types else types) =
      rw (h5, e) refl in
    let b_known : b ≡ not (is_text type t) = sym (ok-injective h6) in
    elim (Bool-cases (is_text type t)) [
      | inl gone ↦
          let same : rest ≡ kept = ok-injective (rw (b_known, gone) at h4) in
          (
            (if is_module t then t ∷ types else types),
            all_types,
            rw (← same) (e' ∙ ground (arith, gone)),
          )
      | inr stays ↦
          let same : el ∷ rest ≡ kept = ok-injective (rw (b_known, stays) at h4) in
          (
            (if is_module t then t ∷ types else types),
            all_types,
            rw (← same) (rw (h5, e') (ground (arith, stays))),
          )
    ]

-- One section that was changed.
section_without-ok :
    (type : String) (section changed : Value)
    → section_without type section ≡ ok changed
    → (els kept : List Value) × (iterate section ≡ ok els)
      × (iterate changed ≡ ok kept)
      × (keep_result (is_other type) els ≡ ok kept)
unfolding section_without iterate
section_without-ok type (arr els) changed h =
    let (kept, h1, h2) = >>=-eq-ok (keep_result (is_other type) (to_list els)) _ h in
    (to_list els, kept, refl, rw (← ok-injective h2) (ap ok (to_list-of_list kept)), h1)
section_without-ok type (str s) changed h = elim (Bool-cases (is_true (str s))) [
  | inl e ↦ let h' : err Error.attribute_error ≡ ok changed = rw e at h in cc
  | inr e ↦ let h' : err Error.type_error ≡ ok changed = rw e at h in cc
]
section_without-ok type (obj d) changed h = elim (Bool-cases (is_true (obj d))) [
  | inl e ↦ let h' : err Error.attribute_error ≡ ok changed = rw e at h in cc
  | inr e ↦ let h' : err Error.type_error ≡ ok changed = rw e at h in cc
]
section_without-ok type null changed h = cc
section_without-ok type (bool b) changed h = cc
section_without-ok type (int n) changed h = cc
section_without-ok type (float r) changed h = cc

pub sections_types-without :
    (type : String) (sections changed : List Value)
    → map_result (section_without type) sections ≡ ok changed
    → (types : List Value) × (sections_types sections ≡ ok types)
      × (sections_types changed ≡ ok (without type types))
unfolding sections_types map_result
sections_types-without type [] changed h = ([], refl, rw (← ok-injective h) refl)
sections_types-without type (section ∷ sections) changed h =
    let (new, h1, h2) = >>=-eq-ok (section_without type section) _ h in
    let (rest, h3, h4) = >>=-eq-ok (map_result (section_without type) sections) _ h2 in
    let (els, kept, i, i', k) = section_without-ok type section new h1 in
    let (own, e, e') = section_types-keep type els kept k in
    let (others, f, f') = sections_types-without type sections rest h3 in
    let same : new ∷ rest ≡ changed = ok-injective h4 in
    (
      own ++ others,
      rw (i, e, f) refl,
      rw (← same)
          (rw (i', e', f') (ap ok (sym (keep-append (λ t. not (is_text type t)) own others)))),
    )

-- A new entry at the end of one section.
section_types-append :
    (type : String) (els types : List Value)
    → is_module (str type) ≡ true
    → section_types els ≡ ok types
    → section_types (els ++ module_entry type ∷ []) ≡ ok (types ++ str type ∷ [])
unfolding section_types get get_or
section_types-append type [] types m h = rw (← ok-injective h) (rw m refl)
section_types-append type (el ∷ els) types m h =
    let (t, h1, h2) = >>=-eq-ok (get_or el "type" null) _ h in
    let (rest, h3, h4) = >>=-eq-ok (section_types els) _ h2 in
    rw (← ok-injective h4) (rw (h1, section_types-append type els rest m h3) (ground (arith)))

pub sections_types-append :
    (type : String) (sections changed types : List Value)
    → is_module (str type) ≡ true
    → append_section type sections ≡ ok changed
    → sections_types sections ≡ ok types
    → sections_types changed ≡ ok (types ++ str type ∷ [])
unfolding append_section sections_types iterate
sections_types-append type [] changed types m h k = cc
sections_types-append type (arr els ∷ []) changed types m h k =
    let (own, k1, k2) = >>=-eq-ok (section_types (to_list els)) _ k in
    rw (← ok-injective h) (
      rw (to_list-of_list, section_types-append type (to_list els) own m k1)
        (ap ok (
          append-nil (own ++ str type ∷ [])
          ∙ ap (λ ts. ts ++ str type ∷ []) (sym (append-nil own) ∙ ok-injective k2))))
sections_types-append type (str s ∷ []) changed types m h k = cc
sections_types-append type (obj d ∷ []) changed types m h k = cc
sections_types-append type (null ∷ []) changed types m h k = cc
sections_types-append type (bool b ∷ []) changed types m h k = cc
sections_types-append type (int n ∷ []) changed types m h k = cc
sections_types-append type (float r ∷ []) changed types m h k = cc
sections_types-append type (v ∷ w ∷ rest) changed types m h k =
    let (new, h1, h2) = >>=-eq-ok (append_section type (w ∷ rest)) _ h in
    let (els, k1, k2) = >>=-eq-ok (iterate v) _ k in
    let (own, k3, k4) = >>=-eq-ok (section_types els) _ k2 in
    let (others, k5, k6) = >>=-eq-ok (sections_types (w ∷ rest)) _ k4 in
    rw (← ok-injective h2) (
      rw (k1, k3, sections_types-append type (w ∷ rest) new others m h1 k5)
        (ap ok (
          sym (append_assoc own others (str type ∷ []))
          ∙ ap (λ ts. ts ++ str type ∷ []) (ok-injective k6))))
