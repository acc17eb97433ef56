-- ===== src/Admin/Services/Keeps.antt =====
-- What a patch of a service leaves alone.
use masterportal_admin.Base.{
  ℕ, String, Bool, true, false, ◌==◌, eq_iff, Option, some, Result, ok, err, http, ◌>>=◌, >>=-eq-ok,
  ok-injective, if◌then◌else◌, all, contains, ◌≡◌, refl, sym, ap, ◌∙◌, arith, Bool-cases,
  Option-cases, inl, inr,
}
use masterportal_admin.Json.{Value, bool, Fields, end, field}
use masterportal_admin.Json.Object.{get, set, keys}
use masterportal_admin.Db.{Db, Service}
use masterportal_admin.Db.Table.{find, alter, find-alter_row, key-find}
use masterportal_admin.Proxy.Authorize.{service_key}
use masterportal_admin.Admin.{actor, audit}
use masterportal_admin.Admin.Services.{
  Patch, patchable, check_env, equals_bool, equals_text, change, text_value, patch_field,
  patch_fields, save_patch, patch_known, patch_service,
}

-- What identifies a service and says where it is.
abbrev pub identity : Service → String × String × String × ℕ × Fields
identity s = (s.key, s.catalog, s.external_id, s.position, s.attrs)

abbrev is_empty : Fields → Bool
is_empty end = true
is_empty (field k v d) = false

is_empty-set : (k : String) (v : Value) (d : Fields) → is_empty (set k v d) ≡ false
unfolding set
is_empty-set k v end = refl
is_empty-set k v (field j w d) = ground arith

-- The patched row is `old` in what identifies it, and as a whole while no change is noted.
abbrev IsPatchOf : Service → Patch → Type 0
IsPatchOf old (s, changes) =
    (identity s ≡ identity old) × ((noted : is_empty changes ≡ true) → s ≡ old)

IsPatchOf-set :
    (old s s' : Service) (k : String) (v : Value) (changes : Fields)
    → identity s' ≡ identity s
    → IsPatchOf old (s, changes)
    → IsPatchOf old (s', set k v changes)
IsPatchOf-set old s s' k v changes same (kept, whole) =
    (same ∙ kept, λ noted. let no = is_empty-set k v changes in cc)

module _ (bool_column : Value → Result Bool) (text_column : Value → Result (Option String))
    (other_field : String → Value → Patch → Result Patch) where
  -- A round that keeps the row, or converts the value and sets one field.
  keeps_either :
      {A : Type 0} (test : Bool) (m : Result A) (f : A → Patch) (p q : Patch) (old : Service)
      → ((a : A) → IsPatchOf old (f a))
      → IsPatchOf old p
      → (if test then ok p else m >>= λ a. ok (f a)) ≡ ok q
      → IsPatchOf old q
  keeps_either test m f p q old changed same h = elim (Bool-cases test) [
    | inl equal ↦ let e : p ≡ q = ok-injective (rw equal at h) in rw (sym e) same
    | inr differs ↦
        let (a, got, h') = >>=-eq-ok m (λ a. ok (f a)) (rw differs at h) in
        let e : f a ≡ q = ok-injective h' in rw (sym e) (changed a)
  ]

  patch_field-IsPatchOf :
      (k : String) (v : Value) (p q : Patch) (old : Service)
      → contains patchable k ≡ true
      → IsPatchOf old p
      → patch_field bool_column text_column other_field k v p ≡ ok q
      → IsPatchOf old q
  patch_field-IsPatchOf k v (s, changes) q old known same h = elim (Bool-cases (k == "is_public")) [
    | inl public ↦
        keeps_either (equals_bool s.is_public v) (bool_column v)
          (λ b. (record s { is_public = b }, set "is_public" (change (bool s.is_public) v) changes))
          (s, changes) q old (λ b. IsPatchOf-set old s _ _ _ changes refl same) same
          (rw public at h)
    | inr other ↦ elim (Bool-cases (k == "allow_transactions")) [
      | inl transactions ↦
          keeps_either (equals_bool s.allow_transactions v) (bool_column v)
            (λ b. (
              record s { allow_transactions = b },
              set "allow_transactions" (change (bool s.allow_transactions) v) changes,
            ))
            (s, changes) q old (λ b. IsPatchOf-set old s _ _ _ changes refl same) same
            (rw (other, transactions) at h)
      | inr neither ↦
          let last : (k == "upstream_auth_env") ≡ true = ground (
            arith,
            eq_iff "is_public" k,
            eq_iff k "is_public",
            eq_iff "allow_transactions" k,
            eq_iff k "allow_transactions",
            eq_iff "upstream_auth_env" k,
            eq_iff k "upstream_auth_env",
          ) in
          keeps_either (equals_text s.upstream_auth_env v) (text_column v)
            (λ env. (
              record s { upstream_auth_env = env },
              set "upstream_auth_env" (change (text_value s.upstream_auth_env) v) changes,
            ))
            (s, changes) q old (λ env. IsPatchOf-set old s _ _ _ changes refl same) same
            (rw (other, neither, last) at h)
    ]
  ]

  patch_fields-IsPatchOf :
      (payload : Fields) (p q : Patch) (old : Service)
      → all (contains patchable) (keys payload) ≡ true
      → IsPatchOf old p
      → patch_fields bool_column text_column other_field payload p ≡ ok q
      → IsPatchOf old q
  unfolding patch_fields
  patch_fields-IsPatchOf end p q old known same h = rw (sym (ok-injective h)) same
  patch_fields-IsPatchOf (field k v payload) p q old known same h =
      let (next, h1, h2) = >>=-eq-ok (patch_field bool_column text_column other_field k v p) _ h in
      patch_fields-IsPatchOf payload next q old (ground arith)
        (patch_field-IsPatchOf k v p next old (ground arith) same h1) h2

  -- The row of a found key, once saved.
  find-saved :
      (key k : String) (s old : Service) (db : Db)
      → find service_key key db.services ≡ some old
      → s.key ≡ key
      → find service_key k (alter service_key key (λ r. s) db.services)
        ≡ (if key == k then some s else find service_key k db.services)
  find-saved key k s old db found own = elim (Bool-cases (key == k)) [
    | inr apart ↦ find-alter_row service_key s key k db.services own ∙ rw apart refl
    | inl same ↦
        let e : find service_key k db.services ≡ some old =
          ap (λ j. find service_key j db.services) (sym ((eq_iff key k).0 same)) ∙ found in
        find-alter_row service_key s key k db.services own ∙ rw (same, e) refl
  ]

  save_patch-ok :
      (ts : String) (claims : Fields) (key k : String) (db after : Db) (p : Patch) (s old : Service)
      → find service_key key db.services ≡ some old
      → old.key ≡ key
      → IsPatchOf old p
      → save_patch bool_column text_column other_field ts claims key db p ≡ ok (s, after)
      → (identity s ≡ identity old)
        × (find service_key k after.services
            ≡ (if key == k then some s else find service_key k db.services))
        × (after.portals ≡ db.portals)
        × (after.snapshots ≡ db.snapshots)
  unfolding audit
  save_patch-ok ts claims key k db after (q, end) s old found own (kept, whole) h =
      let e : db ≡ after = ap (λ r. r.1) (ok-injective h) in
      let e' : q ≡ s = ap (λ r. r.0) (ok-injective h) in
      let same : s ≡ old = sym e' ∙ whole refl in
      (
        ap identity same,
        rw (sym e) (elim (Bool-cases (key == k)) [
          | inr apart ↦ rw apart refl
          | inl there ↦
              rw (there, same)
                (ap (λ j. find service_key j db.services) (sym ((eq_iff key k).0 there)) ∙ found)
        ]),
        ap (λ d. d.portals) (sym e),
        ap (λ d. d.snapshots) (sym e),
      )
  save_patch-ok ts claims key k db after (q, field j v changes) s old found own (kept, whole) h =
      let (done, h1, h2) = >>=-eq-ok (audit ts claims "service.patch" key _ _) _ h in
      let (who, named, h3) = >>=-eq-ok (actor claims) _ h1 in
      let e : done ≡ after = ap (λ r. r.1) (ok-injective h2) in
      let e' : q ≡ s = ap (λ r. r.0) (ok-injective h2) in
      let logged = ok-injective h3 in
      (
        ap identity (sym e') ∙ kept,
        ap (λ d. find service_key k d.services) (sym e)
            ∙ ap (λ d. find service_key k d.services) (sym logged)
            ∙ find-saved key k q old db found (ap (λ i. i.0) kept ∙ own)
            ∙ ap (λ r. if key == k then some r else find service_key k db.services) e',
        ap (λ d. d.portals) (sym e) ∙ ap (λ d. d.portals) (sym logged),
        ap (λ d. d.snapshots) (sym e) ∙ ap (λ d. d.snapshots) (sym logged),
      )

  -- If `patch_service` returns a row, then a row of the key was there, and the returned one has its
  -- key, its catalog, its id, its position and its attributes, among them the upstream's address; the
  -- table afterwards has the returned row under the key, and every other key has the row it had; and
  -- the portals and snapshots are as before. This holds whatever setattr does with other attributes.
  pub identity-patch_service :
      (ts : String) (claims : Fields) (key : String) (payload : Fields) (db after : Db)
      (s : Service) (k : String)
      → patch_service bool_column text_column other_field ts claims key payload db ≡ ok (s, after)
      → (old : Service) × (find service_key key db.services ≡ some old)
        × (identity s ≡ identity old)
        × (find service_key k after.services
            ≡ (if key == k then some s else find service_key k db.services))
        × (after.portals ≡ db.portals)
        × (after.snapshots ≡ db.snapshots)
  unfolding patch_service
  identity-patch_service ts claims key payload db after s k h =
      elim (Option-cases (find service_key key db.services)) [
        | inl missing ↦
            let h' : err (http 404) ≡ ok (s, after) = rw (missing, patch_service) at h in cc
        | inr (old, found) ↦
            let h1 : patch_known bool_column text_column other_field ts claims key payload db old
                ≡ ok (s, after) =
              rw (found, patch_service) at h in
            elim (Bool-cases (all (contains patchable) (keys payload))) [
              | inr foreign ↦
                  let h' : err (http 422) ≡ ok (s, after) = rw (foreign, patch_known) at h1 in cc
              | inl known ↦
                  let (checked, h2, h3) =
                    >>=-eq-ok (check_env (get "upstream_auth_env" payload)) _
                      (rw (known, patch_known) at h1) in
                  let (p, h4, h5) =
                    >>=-eq-ok (patch_fields bool_column text_column other_field payload (old, end))
                      _ h3 in
                  let (same, there, portals, snapshots) =
                    save_patch-ok ts claims key k db after p s old found
                      (key-find service_key key db.services old found)
                      (patch_fields-IsPatchOf payload (old, end) p old known (refl, λ noted. refl)
                        h4)
                      h5 in
                  (old, found, same, there, portals, snapshots)
            ]
      ]
