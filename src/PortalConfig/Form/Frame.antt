-- ===== src/PortalConfig/Form/Frame.antt =====
-- What a patch of the settings leaves alone.
use masterportal_admin.Base.{
  String, Bool, false, ◌&&◌, ◌||◌, ◌==◌, eq_refl, some, Result, ok, ◌>>=◌, >>=-eq-ok, ok-injective,
  ◌≡◌, refl, sym, ap, ◌∙◌, arith, Option-cases, inl, inr,
}
use masterportal_admin.Json.{Value, null, bool, int, float, arr, obj, str, Fields, end}
use masterportal_admin.Json.Object.{get, get-set}
use masterportal_admin.Json.Update.{has_key, value_or, with_default, put}
use masterportal_admin.Access.Menu.Keeps.{entry}
use masterportal_admin.PortalConfig.Form.{
  title_keys, put_texts, apply_map_config, apply_control_config, apply_title, apply_footer,
  apply_map, apply_controls, when_patched, apply_settings,
}

pub with_default-ok :
    (k : String) (default : Value) (f : Value → Result Value) (pc changed : Value)
    → with_default k default f pc ≡ ok changed
    → (w : Value) × (f (value_or default (entry k pc)) ≡ ok w)
      × (entry k changed ≡ some w)
      × ((j : String) → (k == j) ≡ false → entry j changed ≡ entry j pc)
with_default-ok k default f (obj d) changed h =
    let (w, h1, h2) = >>=-eq-ok (f (value_or default (get k d))) _ h in
    rw (← ok-injective h2)
      (w, h1, get-set k k w d ∙ rw (eq_refl k) refl, λ j other. get-set k j w d ∙ rw other refl)
with_default-ok k default f (arr vs) changed h = cc
with_default-ok k default f (str s) changed h = cc
with_default-ok k default f null changed h = cc
with_default-ok k default f (bool b) changed h = cc
with_default-ok k default f (int n) changed h = cc
with_default-ok k default f (float r) changed h = cc

-- `f` changes no other entry than `k`.
abbrev pub Changes : String → (Value → Value → Result Value) → Type 0
Changes k f =
    (v pc changed : Value)
    → f v pc ≡ ok changed
    → (j : String) → (k == j) ≡ false
    → entry j changed ≡ entry j pc

with_default-Changes :
    (k : String) (default : Value) (f : Value → Value → Result Value)
    → Changes k (λ v. with_default k default (f v))
with_default-Changes k default f v pc changed h =
    let (w, ran, placed, kept) = with_default-ok k default (f v) pc changed h in kept

apply_title-Changes : Changes "mainMenu" apply_title
unfolding apply_title
apply_title-Changes =
    with_default-Changes "mainMenu" (obj end)
      (λ v. with_default "title" (obj end) (put_texts title_keys v))

apply_footer-Changes : Changes "portalFooter" apply_footer
unfolding apply_footer
apply_footer-Changes = with_default-Changes "portalFooter" (obj end) (put "urls")

apply_map-Changes : Changes "map" apply_map
unfolding apply_map
apply_map-Changes = with_default-Changes "map" (obj end) apply_map_config

apply_controls-Changes : Changes "map" apply_controls
unfolding apply_controls
apply_controls-Changes =
    with_default-Changes "map" (obj end)
      (λ v. with_default "controls" (obj end) (apply_control_config v))

-- A part of the patch that is not there, or that changes another entry.
when_patched-entry :
    (part k : String) (f : Value → Value → Result Value) (patch : Fields) (pc changed : Value)
    (j : String)
    → Changes k f
    → when_patched part patch f pc ≡ ok changed
    → (has_key part patch && k == j) ≡ false
    → entry j changed ≡ entry j pc
when_patched-entry part k f patch pc changed j changes h apart =
    elim (Option-cases (get part patch)) [
      | inl missing ↦ ap (entry j) (sym (ok-injective (rw (missing, when_patched) at h)))
      | inr (v, there) ↦
          changes v pc changed (rw (there, when_patched) at h) j (rw (there, has_key) at apart)
    ]

-- The parts of a patch, one after the other.
pub apply_settings-ok :
    (pc changed : Value) (patch : Fields)
    → apply_settings pc patch ≡ ok changed
    → (titled : Value) × (when_patched "title" patch apply_title pc ≡ ok titled)
      × ((j : String)
          → (has_key "footerUrls" patch && "portalFooter" == j) ≡ false
          → ((has_key "map" patch || has_key "controls" patch) && "map" == j) ≡ false
          → entry j changed ≡ entry j titled)
unfolding apply_settings
apply_settings-ok pc changed patch h =
    let (p3, h1, h2) =
      >>=-eq-ok
        (when_patched "title" patch apply_title pc
          >>= when_patched "footerUrls" patch apply_footer
          >>= when_patched "map" patch apply_map)
        _ h in
    let (p2, h3, h4) =
      >>=-eq-ok
        (when_patched "title" patch apply_title pc >>= when_patched "footerUrls" patch apply_footer)
        _ h1 in
    let (p1, h5, h6) = >>=-eq-ok (when_patched "title" patch apply_title pc) _ h3 in
    (
      p1,
      h5,
      λ j footer map_.
          when_patched-entry "controls" "map" apply_controls patch p3 changed j
            apply_controls-Changes h2 (ground arith)
          ∙ when_patched-entry "map" "map" apply_map patch p2 p3 j apply_map-Changes h4
              (ground arith)
          ∙ when_patched-entry "footerUrls" "portalFooter" apply_footer patch p1 p2 j
              apply_footer-Changes h6 footer,
    )

-- The entries that a patch may change.
abbrev pub touches : Fields → String → Bool
touches patch j =
    has_key "title" patch && "mainMenu" == j
    || has_key "footerUrls" patch && "portalFooter" == j
    || (has_key "map" patch || has_key "controls" patch) && "map" == j

-- If apply_settings returns, every entry of the configuration is unchanged but `mainMenu` where the
-- patch has a title, `portalFooter` where it has footer links, and `map` where it has map or control
-- settings.
pub entry-apply_settings :
    (pc changed : Value) (patch : Fields)
    → apply_settings pc patch ≡ ok changed
    → (j : String) → touches patch j ≡ false
    → entry j changed ≡ entry j pc
entry-apply_settings pc changed patch h j apart =
    let (titled, first, rest) = apply_settings-ok pc changed patch h in
    rest j (ground arith) (ground arith)
    ∙ when_patched-entry "title" "mainMenu" apply_title patch pc titled j apply_title-Changes first
        (ground arith)
