-- ===== src/Access/Menu/Keeps.antt =====
-- `filter_portal_config` keeps exactly the menu entries whose module the caller may use.
use masterportal_admin.Base.{
  String, Bool, true, false, ◌≡◌, refl, sym, ap, ◌∙◌, ◌≢◌, eq_iff, eq_refl, Option, none, some,
  List, [], ◌∷◌, map, arith, Result, ok, err, ◌>>=◌, >>=-eq-ok, ok-injective, keep, keep_result,
  map_result,
}
use masterportal_admin.Base.Dict.{Dict}
use masterportal_admin.Json.{
  to_list-of_list, Value, null, arr, obj, Items, Fields, end, to_list, of_list,
}
use masterportal_admin.Json.Object.{get, set, get_or, iterate, get-set, is_list}
use masterportal_admin.Access.Menu.Policy.{may_use, module_ok-may_use}
use masterportal_admin.Access.Menu.{
  module_ok, filter_section, filter_sections, filter_menu, filter_portal_config, with_sections,
}

abbrev pub section_elements : Value → List Value
section_elements section = elim (iterate section) [ ok els ↦ els | err _ ↦ [] ]

abbrev sections_in : Option Value → List (List Value)
sections_in (some (arr ss)) = map section_elements (to_list ss)
sections_in _ = []

abbrev sections_of : Option Value → List (List Value)
sections_of (some (obj m)) = sections_in (get "sections" m)
sections_of _ = []

abbrev pub entry : String → Value → Option Value
entry k (obj d) = get k d
entry k _ = none

-- The entries of a menu of a portalConfig, section by section.
unfoldable pub menu_sections : String → Value → List (List Value)
menu_sections menu pc = sections_of (entry menu pc)

keep_result-keep {ℓ} :
    {A : Type ℓ} (p : A → Result Bool) (q : A → Bool)
    → ((x : A) (b : Bool) → p x ≡ ok b → b ≡ q x)
    → (xs ys : List A) → keep_result p xs ≡ ok ys
    → ys ≡ keep q xs
unfolding keep_result
keep_result-keep p q same [] ys h = ground arith
keep_result-keep p q same (x ∷ xs) ys h =
    let (b, eb, h') =
      >>=-eq-ok (p x)
        (λ b. do rest ← keep_result p xs; ok (elim b [ true ↦ x ∷ rest | false ↦ rest ])) h in
    let (rest, er, hy) =
      >>=-eq-ok (keep_result p xs) (λ rest. ok (elim b [ true ↦ x ∷ rest | false ↦ rest ])) h' in
    ground (arith, keep_result-keep p q same xs rest er, same x b eb)

menus_differ : ◌≢◌ {A = String} "mainMenu" "secondaryMenu"
menus_differ = ground (arith, eq_iff "mainMenu" "secondaryMenu")

section_elements-arr : (vs : List Value) → section_elements (arr (of_list vs)) ≡ vs
unfolding iterate
section_elements-arr vs = to_list-of_list vs

module _ (restricted : Dict (List String)) (uroles : Option (List String)) where
  abbrev passes : Value → Bool
  passes = may_use restricted uroles

  section_keeps :
      (section kept : Value)
      → filter_section restricted uroles section ≡ ok kept
      → section_elements kept ≡ keep passes (section_elements section)
  unfolding filter_section
  section_keeps section kept h =
      let (els, e, h') =
        >>=-eq-ok (iterate section)
          (λ els. do kept ← keep_result (module_ok restricted uroles) els; ok (arr (of_list kept)))
          h in
      let (ys, ey, hk) =
        >>=-eq-ok (keep_result (module_ok restricted uroles) els) (λ kept. ok (arr (of_list kept)))
          h' in
      cc (
        ok-injective hk,
        e,
        section_elements-arr ys,
        keep_result-keep (module_ok restricted uroles) (may_use restricted uroles)
            (module_ok-may_use restricted uroles) els ys ey,
      )

  sections_keep :
      (ss kept : List Value)
      → map_result (filter_section restricted uroles) ss ≡ ok kept
      → map section_elements kept ≡ map (keep passes) (map section_elements ss)
  unfolding map_result
  sections_keep [] kept h = ground arith
  sections_keep (s ∷ ss) kept h =
      let (k, ek, h') =
        >>=-eq-ok (filter_section restricted uroles s)
          (λ k. do ks ← map_result (filter_section restricted uroles) ss; ok (k ∷ ks)) h in
      let (ks, eks, hk) =
        >>=-eq-ok (map_result (filter_section restricted uroles) ss) (λ ks. ok (k ∷ ks)) h' in
      cc (ok-injective hk, section_keeps s k ek, sections_keep ss ks eks)

  -- What one round does to its own menu, and to the other entries.
  abbrev Round : String → Value → Value → Type 0
  Round menu pc pc' =
      (menu_sections menu pc' ≡ map (keep passes) (menu_sections menu pc))
      × ((k : String) → k ≢ menu → entry k pc' ≡ entry k pc)

  Round-same :
      (menu : String) (pc pc' : Value)
      → ok pc ≡ ok pc'
      → menu_sections menu pc ≡ []
      → Round menu pc pc'
  Round-same menu pc pc' h e = (cc (ok-injective h, e), λ k _. ap (entry k) (sym (ok-injective h)))

  -- The call that changes a menu: its sections were a list.
  Round-arr :
      (menu : String) (d m : Fields) (ss : Items) (kept : List Value)
      → get menu d ≡ some (obj m)
      → get "sections" m ≡ some (arr ss)
      → map_result (filter_section restricted uroles) (to_list ss) ≡ ok kept
      → Round menu (obj d) (with_sections menu (obj d) (obj m) kept)
  unfolding menu_sections
  Round-arr menu d m ss kept em es ek = (
    cc (
      get-set menu menu (obj (set "sections" (arr (of_list kept)) m)) d,
      get-set "sections" "sections" (arr (of_list kept)) m,
      eq_refl menu,
      to_list-of_list kept,
      sections_keep (to_list ss) kept ek,
      em,
      es,
    ),
    λ k ne.
        ground
          (arith, get-set menu k (obj (set "sections" (arr (of_list kept)) m)) d, eq_iff menu k),
  )

  -- A menu without a list of sections has no entries.
  no_sections :
      (menu : String) (d : Fields) (m s : Value)
      → get_or (obj d) menu (obj end) ≡ ok m
      → get_or m "sections" null ≡ ok s
      → is_list s ≡ false
      → menu_sections menu (obj d) ≡ []
  unfolding menu_sections get_or get
  no_sections menu d m s em es h = ground arith

  found :
      (menu : String) (d m : Fields) (ss : Items)
      → get_or (obj d) menu (obj end) ≡ ok (obj m)
      → get_or (obj m) "sections" null ≡ ok (arr ss)
      → (get menu d ≡ some (obj m)) × (get "sections" m ≡ some (arr ss))
  unfolding get_or get
  found menu d m ss em es = ground arith

  Round-sections :
      (menu : String) (d : Fields) (m s pc' : Value)
      → get_or (obj d) menu (obj end) ≡ ok m
      → get_or m "sections" null ≡ ok s
      → filter_sections restricted uroles menu (obj d) m s ≡ ok pc'
      → Round menu (obj d) pc'
  unfolding filter_sections
  Round-sections menu d (obj m) (arr ss) pc' em es h =
      let (kept, ek, hp) =
        >>=-eq-ok (map_result (filter_section restricted uroles) (to_list ss))
          (λ kept. ok (with_sections menu (obj d) (obj m) kept)) h in
      let (in_pc, in_m) = found menu d m ss em es in
      rw (← ok-injective hp) (Round-arr menu d m ss kept in_pc in_m ek)
  Round-sections menu d (obj m) s pc' em es h =
      Round-same menu (obj d) pc' h (no_sections menu d (obj m) s em es refl)
  Round-sections menu d m s pc' em es h = unfold get_or in cc

  round :
      (menu : String) (pc pc' : Value)
      → filter_menu restricted uroles menu pc ≡ ok pc'
      → Round menu pc pc'
  unfolding filter_menu
  round menu (obj d) pc' h =
      let (m, em, h') =
        >>=-eq-ok (get_or (obj d) menu (obj end))
          (λ m. do
            sections ← get_or m "sections" null
            filter_sections restricted uroles menu (obj d) m sections)
          h in
      let (s, es, hp) =
        >>=-eq-ok (get_or m "sections" null)
          (λ s. filter_sections restricted uroles menu (obj d) m s) h' in
      Round-sections menu d m s pc' em es hp
  round menu pc pc' h = unfold get_or in cc

-- If some module is restricted and `filter_portal_config` returns, each section of the two menus
-- keeps exactly the entries that the caller may use, in their order: those whose type has no required
-- roles, and for a signed-in caller also all if it is an administrator, and those of which it has one
-- of the required roles. No other entry of the portalConfig changes.
pub menu_sections-filter_portal_config :
    (pc pc' : Value) (restricted : Dict (List String)) (uroles : Option (List String))
    → restricted ≢ []
    → filter_portal_config pc restricted uroles ≡ ok pc'
    → (menu_sections "mainMenu" pc'
        ≡ map (keep (may_use restricted uroles)) (menu_sections "mainMenu" pc))
      × (menu_sections "secondaryMenu" pc'
          ≡ map (keep (may_use restricted uroles)) (menu_sections "secondaryMenu" pc))
      × ((k : String) → k ≢ "mainMenu" → k ≢ "secondaryMenu" → entry k pc' ≡ entry k pc)
unfolding filter_portal_config menu_sections
menu_sections-filter_portal_config pc pc' [] uroles ne h = absurd (ne refl)
menu_sections-filter_portal_config pc pc' (r ∷ rs) uroles ne h =
    let (p, ep, h') =
      >>=-eq-ok (filter_menu (r ∷ rs) uroles "mainMenu" pc)
        (filter_menu (r ∷ rs) uroles "secondaryMenu") h in
    let (a, a_others) = round (r ∷ rs) uroles "mainMenu" pc p ep in
    let (b, b_others) = round (r ∷ rs) uroles "secondaryMenu" p pc' h' in
    (
      cc (a, b_others "mainMenu" menus_differ),
      cc (b, a_others "secondaryMenu" (λ e. menus_differ (sym e))),
      λ k n1 n2. b_others k n2 ∙ a_others k n1,
    )
