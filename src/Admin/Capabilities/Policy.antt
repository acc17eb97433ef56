-- ===== src/Admin/Capabilities/Policy.antt =====
-- An import of capabilities never changes who may use a service that was there before.
use masterportal_admin.Base.{
  ℕ, suc, String, Bool, true, false, ◌==◌, eq_iff, Option, none, some, List, [], ◌∷◌, Result, ok,
  err, >>=-eq-ok, ok-injective, if◌then◌else◌, ◌≡◌, refl, sym, ap, ◌∙◌, Bool-cases, inl, inr, ◌⊎◌,
  Option-cases, http, Error,
}
use masterportal_admin.Json.{Value, Fields}
use masterportal_admin.Db.{Db, Service, scoped_key}
use masterportal_admin.Db.Table.{find, merge, find-merge}
use masterportal_admin.Proxy.Authorize.{service_key}
use masterportal_admin.Admin.Capabilities.{
  entry_row, merge_entry, merge_entries, save_entries, saved, import_capabilities, Element,
  fetch_document, check_url, dry_run_of, layer_entries, version_of, count_catalog,
}
use masterportal_admin.Proxy.Upstream.{Address, HostCache, assert_allowed_upstream}
use masterportal_admin.Admin.{actor, audit, item}
use masterportal_admin.Json.{null, bool, int, float, arr, obj, str}
use masterportal_admin.Base.Text.{is_http}
use masterportal_admin.Json.Object.{get}

-- The same access: public or not, the variable of the credentials, and whether it takes transactions.
abbrev pub SamePolicy : Service → Service → Type 0
SamePolicy s r =
    (r.is_public ≡ s.is_public)
    × (r.upstream_auth_env ≡ s.upstream_auth_env)
    × (r.allow_transactions ≡ s.allow_transactions)

-- The row of that key is there, with the access of `s`.
abbrev pub KeepsPolicy : String → Service → List Service → Type 0
KeepsPolicy k s rows = (r : Service) × (find service_key k rows ≡ some r) × SamePolicy s r

-- A row that was found is there, with its access; where none was, there is nothing to keep.
abbrev pub KeepsFound : String → Option Service → List Service → Type 0
KeepsFound k none rows = Unit
KeepsFound k (some s) rows = KeepsPolicy k s rows

key-entry_row :
    (catalog : String) (position : ℕ) (id : String) (attrs : Fields) (o : Option Service)
    → service_key (entry_row catalog position id attrs o) ≡ scoped_key catalog id
key-entry_row catalog position id attrs none = refl
key-entry_row catalog position id attrs (some s) = refl

merge_entry-KeepsPolicy :
    (catalog : String) (position : ℕ) (id : String) (attrs : Fields) (k : String) (s : Service)
    (rows : List Service)
    → KeepsPolicy k s rows
    → KeepsPolicy k s (merge_entry catalog position (id, attrs) rows)
merge_entry-KeepsPolicy catalog position id attrs k s rows (r, found, same) =
    let row = entry_row catalog position id attrs (find service_key (scoped_key catalog id) rows) in
    let there : find service_key k (merge service_key row rows)
        ≡ (if scoped_key catalog id == k then some row else find service_key k rows) =
      find-merge service_key k row rows
      ∙ ap (λ j. if j == k then some row else find service_key k rows)
          (key-entry_row catalog position id attrs
            (find service_key (scoped_key catalog id) rows)) in
    elim (Bool-cases (scoped_key catalog id == k)) [
      | inr apart ↦ (r, rw apart at there ∙ found, same)
      | inl own ↦
          let e : find service_key (scoped_key catalog id) rows ≡ some r =
            ap (λ j. find service_key j rows) ((eq_iff (scoped_key catalog id) k).0 own) ∙ found in
          (
            entry_row catalog position id attrs (some r),
            rw own at there ∙ ap (λ o. some (entry_row catalog position id attrs o)) e,
            same,
          )
    ]

merge_entries-KeepsPolicy :
    (catalog : String) (position : ℕ) (entries : List (String × Fields)) (k : String) (s : Service)
    (rows : List Service)
    → KeepsPolicy k s rows
    → KeepsPolicy k s (merge_entries catalog position entries rows)
unfolding merge_entries
merge_entries-KeepsPolicy catalog position [] k s rows h = h
merge_entries-KeepsPolicy catalog position ((id, attrs) ∷ entries) k s rows h =
    merge_entries-KeepsPolicy catalog (suc position) entries k s
      (merge_entry catalog position (id, attrs) rows)
      (merge_entry-KeepsPolicy catalog position id attrs k s rows h)

merge_entries-KeepsFound :
    (catalog : String) (position : ℕ) (entries : List (String × Fields)) (k : String)
    (rows : List Service) (o : Option Service)
    → find service_key k rows ≡ o
    → KeepsFound k o (merge_entries catalog position entries rows)
merge_entries-KeepsFound catalog position entries k rows none missing = tt
merge_entries-KeepsFound catalog position entries k rows (some s) found =
    merge_entries-KeepsPolicy catalog position entries k s rows (s, found, (refl, refl, refl))

save_entries-services :
    (ts : String) (claims : Fields) (base catalog : String) (entries : List (String × Fields))
    (db after : Db)
    → save_entries ts claims base catalog entries db ≡ ok after
    → after.services ≡ merge_entries catalog (count_catalog catalog db.services) entries db.services
unfolding audit
save_entries-services ts claims base catalog entries db after h =
    let (who, named, h1) = >>=-eq-ok (actor claims) _ h in
    ap (λ d. d.services) (sym (ok-injective h1))

-- `d[k]`, by what the dict has there.
abbrev item_of : Option Value → Result Value
item_of none = err Error.key_error
item_of (some v) = ok v

get-item : (k : String) (d : Fields) (v : Value) → item k d ≡ ok v → get k d ≡ some v
get-item k d v h = elim (Option-cases (get k d)) [
  | inl missing ↦ let h' : err Error.key_error ≡ ok v = ap (item_of) (sym missing) ∙ h in cc
  | inr (w, there) ↦
      let h' : ok w ≡ ok v = ap (item_of) (sym there) ∙ h in there ∙ ap some (ok-injective h')
]

check_url-ok : (v : Value) (url : String) → check_url v ≡ ok url → v ≡ str url
check_url-ok (str s) url h = elim (Bool-cases (is_http s)) [
  | inl web ↦ let e : s ≡ url = ok-injective (rw web at h) in ap str e
  | inr other ↦ let h' : err (http 422) ≡ ok url = rw other at h in cc
]
check_url-ok null url h = cc
check_url-ok (bool b) url h = cc
check_url-ok (int n) url h = cc
check_url-ok (float r) url h = cc
check_url-ok (arr vs) url h = cc
check_url-ok (obj d) url h = cc

module _ (column : Value → Result String) (second : ℕ) (allow_private : Bool)
    (resolve : String → Option (List Address)) (hostname : String → Option String)
    (cache : HostCache) (now : ℕ) (base_of : String → String)
    (fetch : String → Option (List (List ℕ))) (parse : List ℕ → Option Element) where
  saved-KeepsFound :
      (ts : String) (claims : Fields) (dry : Bool) (base : String) (catalog : Value)
      (entries : List (String × Fields)) (db after : Db) (k : String)
      → saved column second allow_private resolve hostname cache now base_of fetch parse ts claims
          dry base catalog entries db
        ≡ ok after
      → ((dry ≡ true) × (after ≡ db))
        ⊎ ((dry ≡ false) × KeepsFound k (find service_key k db.services) after.services)
  saved-KeepsFound ts claims true base catalog entries db after k h =
      inl (refl, sym (ok-injective h))
  saved-KeepsFound ts claims false base catalog entries db after k h =
      let (text, read, h1) = >>=-eq-ok (column catalog) _ h in
      let e = save_entries-services ts claims base text entries db after h1 in
      inr (
        refl,
        rw e (
            merge_entries-KeepsFound text (count_catalog text db.services) entries k db.services _
              refl),
      )

  -- If an import of capabilities returns, then its address is one that the guard against private hosts
  -- lets through; a dry run (the default) leaves all tables as they were; and any other run leaves the
  -- service under every key, if there was one, with its access: public or not, the variable of its
  -- credentials, and whether it takes transactions.
  pub import_capabilities-KeepsPolicy :
      (ts : String) (claims payload : Fields) (db after : Db) (reply : Value) (k : String)
      → import_capabilities column second allow_private resolve hostname cache now base_of fetch
          parse ts claims payload db
        ≡ ok (reply, after)
      → (url : String) × (get "url" payload ≡ some (str url))
        × ((assert_allowed_upstream second allow_private resolve hostname cache now url).0 ≡ ok tt)
        × (((dry_run_of payload ≡ true) × (after ≡ db))
            ⊎ ((dry_run_of payload ≡ false)
                × KeepsFound k (find service_key k db.services) after.services))
  unfolding import_capabilities
  import_capabilities-KeepsPolicy ts claims payload db after reply k h =
      let (address, h1, h2) = >>=-eq-ok (item "url" payload) _ h in
      let (catalog, h3, h4) = >>=-eq-ok (item "catalog" payload) _ h2 in
      let (url, h5, h6) = >>=-eq-ok (check_url address) _ h4 in
      let (public, h7, h8) =
        >>=-eq-ok ((assert_allowed_upstream second allow_private resolve hostname cache now url).0)
          _ h6 in
      let (root, h9, h10) =
        >>=-eq-ok
          (fetch_document column second allow_private resolve hostname cache now base_of fetch parse
            (base_of url))
          _ h8 in
      let (next, h11, h12) =
        >>=-eq-ok
          (saved column second allow_private resolve hostname cache now base_of fetch parse ts
            claims (dry_run_of payload) (base_of url) catalog
            (layer_entries _ (base_of url) (version_of root) root) db)
          _ h10 in
      let asked : get "url" payload ≡ some (str url) =
        get-item "url" payload address h1 ∙ ap some (check_url-ok address url h5) in
      let e : next ≡ after = ap (λ r. r.1) (ok-injective h12) in
      (
        url,
        asked,
        h7,
        saved-KeepsFound ts claims (dry_run_of payload) (base_of url) catalog _ db after k
            (h11 ∙ ap ok e),
      )
