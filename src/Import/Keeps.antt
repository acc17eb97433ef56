-- ===== src/Import/Keeps.antt =====
-- What an import leaves of the services and portals that were there.
use masterportal_admin.Base.{
  ℕ, suc, String, true, false, ◌==◌, eq_iff, Option, none, some, List, [], ◌∷◌, ok, >>=-eq-ok,
  ok-injective, if◌then◌else◌, ◌≡◌, refl, sym, ap, ◌∙◌, Bool-cases, inl, inr, ◌⊎◌,
}
use masterportal_admin.Json.{Value, null, bool, int, float, arr, obj, str, Fields}
use masterportal_admin.Json.Text.{to_text}
use masterportal_admin.Json.Update.{member, item}
use masterportal_admin.Db.{Db, Service, Portal, scoped_key}
use masterportal_admin.Db.Table.{find, merge, find-merge}
use masterportal_admin.Proxy.Authorize.{service_key}
use masterportal_admin.Admin.{portal_key}
use masterportal_admin.Import.{
  imported_service, kept_env, merge_service, import_entry, import_service, import_services,
  import_rest_services, import_styles, import_catalog, imported_portal, merge_portal, Warning,
  validate_config, import_portal,
}

-- The row of that key is there with the credentials of `s`: it is `s` itself, or a public row that
-- takes no transactions.
abbrev pub KeepsEnv : String → Service → List Service → Type 0
KeepsEnv k s rows =
    (r : Service) × (find service_key k rows ≡ some r)
    × (r.upstream_auth_env ≡ s.upstream_auth_env)
    × ((r ≡ s) ⊎ ((r.is_public ≡ true) × (r.allow_transactions ≡ false)))

merge_service-KeepsEnv :
    (catalog : String) (position : ℕ) (id : String) (attrs : Fields) (k : String) (s : Service)
    (rows : List Service)
    → KeepsEnv k s rows
    → KeepsEnv k s (merge_service catalog position id attrs rows)
merge_service-KeepsEnv catalog position id attrs k s rows (r, found, env, kept) =
    let row =
      imported_service catalog position id attrs (find service_key (scoped_key catalog id) rows) in
    let there : find service_key k (merge service_key row rows)
        ≡ (if scoped_key catalog id == k then some row else find service_key k rows) =
      find-merge service_key k row rows in
    elim (Bool-cases (scoped_key catalog id == k)) [
      | inr apart ↦ (r, rw apart at there ∙ found, env, kept)
      | inl own ↦
          let e : find service_key (scoped_key catalog id) rows ≡ some r =
            ap (λ j. find service_key j rows) ((eq_iff (scoped_key catalog id) k).0 own) ∙ found in
          (row, rw own at there, ap kept_env e ∙ env, inr (refl, refl))
    ]

import_entry-KeepsEnv :
    (catalog : String) (position : ℕ) (id v : Value) (k : String) (s : Service)
    (rows after : List Service)
    → import_entry catalog position id v rows ≡ ok after
    → KeepsEnv k s rows
    → KeepsEnv k s after
import_entry-KeepsEnv catalog position id (obj d) k s rows after h kept =
    rw (sym (ok-injective h)) (merge_service-KeepsEnv catalog position (to_text id) d k s rows kept)
import_entry-KeepsEnv catalog position id null k s rows after h kept = cc
import_entry-KeepsEnv catalog position id (bool b) k s rows after h kept = cc
import_entry-KeepsEnv catalog position id (int n) k s rows after h kept = cc
import_entry-KeepsEnv catalog position id (float r) k s rows after h kept = cc
import_entry-KeepsEnv catalog position id (str t) k s rows after h kept = cc
import_entry-KeepsEnv catalog position id (arr vs) k s rows after h kept = cc

import_service-KeepsEnv :
    (catalog : String) (position : ℕ) (v : Value) (k : String) (s : Service)
    (rows after : List Service)
    → import_service catalog position v rows ≡ ok after
    → KeepsEnv k s rows
    → KeepsEnv k s after
unfolding import_service
import_service-KeepsEnv catalog position v k s rows after h kept =
    let (there, asked, h1) = >>=-eq-ok (member "id" v) _ h in
    elim (Bool-cases there) [
      | inl has ↦
          let (id, given, h2) = >>=-eq-ok (item "id" v) _ (rw has at h1) in
          import_entry-KeepsEnv catalog position id v k s rows after h2 kept
      | inr lacks ↦ let e : rows ≡ after = ok-injective (rw lacks at h1) in rw (sym e) kept
    ]

import_services-KeepsEnv :
    (catalog : String) (position : ℕ) (services : List Value) (k : String) (s : Service)
    (rows after : List Service)
    → import_services catalog position services rows ≡ ok after
    → KeepsEnv k s rows
    → KeepsEnv k s after
unfolding import_services
import_services-KeepsEnv catalog position [] k s rows after h kept = rw (sym (ok-injective h)) kept
import_services-KeepsEnv catalog position (v ∷ services) k s rows after h kept =
    let (next, h1, h2) = >>=-eq-ok (import_service catalog position v rows) _ h in
    import_services-KeepsEnv catalog (suc position) services k s next after h2
      (import_service-KeepsEnv catalog position v k s rows next h1 kept)

-- What the import makes of the tables, besides the services.
pub import_portal-ok :
    (slug catalog : String) (config : Value) (services rest styles : List Value) (db after : Db)
    (warnings : List Warning)
    → import_portal slug catalog config services rest styles db ≡ ok (warnings, after)
    → (portal_config : Value) × (layer_config : Value) × (import_services catalog 0 services
          db.services
        ≡ ok after.services)
      × (after.portals ≡ merge_portal slug catalog portal_config layer_config db.portals)
      × (after.snapshots ≡ db.snapshots)
unfolding import_portal import_catalog
import_portal-ok slug catalog config services rest styles db after warnings h =
    let (w, h1, h2) = >>=-eq-ok (validate_config config services styles) _ h in
    let (filled, h3, h4) = >>=-eq-ok (import_catalog catalog services rest styles db) _ h2 in
    let (pc, h5, h6) = >>=-eq-ok (item "portalConfig" config) _ h4 in
    let (lc, h7, h8) = >>=-eq-ok (item "layerConfig" config) _ h6 in
    let (s, h9, h10) = >>=-eq-ok (import_services catalog 0 services db.services) _ h3 in
    let (r, h11, h12) = >>=-eq-ok (import_rest_services catalog 0 rest db.rest_services) _ h10 in
    let (t, h13, h14) = >>=-eq-ok (import_styles catalog 0 styles db.styles) _ h12 in
    let e : after ≡ record filled { portals = merge_portal slug catalog pc lc filled.portals } =
      sym (ap (λ x. x.1) (ok-injective h8)) in
    let f : filled ≡ record db { services = s; rest_services = r; styles = t } =
      sym (ok-injective h14) in
    (
      pc,
      lc,
      h9 ∙ ap (λ d. ok d.services) (sym f) ∙ ap (λ d. ok d.services) (sym e),
      ap (λ d. d.portals) e ∙ ap (λ d. merge_portal slug catalog pc lc d.portals) f,
      ap (λ d. d.snapshots) e ∙ ap (λ d. d.snapshots) f,
    )

portal_key-imported_portal :
    (slug catalog : String) (pc lc : Value) (o : Option Portal)
    → portal_key (imported_portal slug catalog pc lc o) ≡ slug
portal_key-imported_portal slug catalog pc lc none = refl
portal_key-imported_portal slug catalog pc lc (some p) = refl

-- A portal that was there keeps its pointer and its description, under whichever slug the import runs.
pub merge_portal-pointer :
    (slug catalog other : String) (pc lc : Value) (p : Portal) (rows : List Portal)
    → find portal_key other rows ≡ some p
    → (q : Portal) × (find portal_key other (merge_portal slug catalog pc lc rows) ≡ some q)
      × (q.active_snapshot_id ≡ p.active_snapshot_id)
      × (q.description ≡ p.description)
merge_portal-pointer slug catalog other pc lc p rows found =
    let row = imported_portal slug catalog pc lc (find portal_key slug rows) in
    let there : find portal_key other (merge portal_key row rows)
        ≡ (if slug == other then some row else find portal_key other rows) =
      find-merge portal_key other row rows
      ∙ ap (λ j. if j == other then some row else find portal_key other rows)
          (portal_key-imported_portal slug catalog pc lc (find portal_key slug rows)) in
    elim (Bool-cases (slug == other)) [
      | inr apart ↦ (p, rw apart at there ∙ found, refl, refl)
      | inl own ↦
          let e : find portal_key slug rows ≡ some p =
            ap (λ j. find portal_key j rows) ((eq_iff slug other).0 own) ∙ found in
          (
            imported_portal slug catalog pc lc (some p),
            rw own at there ∙ ap (λ o. some (imported_portal slug catalog pc lc o)) e,
            refl,
            refl,
          )
    ]

-- If an import of a portal returns, every service that was there is there still, with the same
-- variable of its credentials; and it is the same row, or it is public and takes no transactions.
pub import_portal-KeepsEnv :
    (slug catalog : String) (config : Value) (services rest styles : List Value) (db after : Db)
    (warnings : List Warning) (k : String) (s : Service)
    → import_portal slug catalog config services rest styles db ≡ ok (warnings, after)
    → find service_key k db.services ≡ some s
    → KeepsEnv k s after.services
import_portal-KeepsEnv slug catalog config services rest styles db after warnings k s h found =
    let (pc, lc, ran, portals, snapshots) =
      import_portal-ok slug catalog config services rest styles db after warnings h in
    import_services-KeepsEnv catalog 0 services k s db.services after.services ran
      (s, found, refl, inl refl)
