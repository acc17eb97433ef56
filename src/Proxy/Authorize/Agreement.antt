-- ===== src/Proxy/Authorize/Agreement.antt =====
-- services.json advertises a service to a caller exactly if the proxy serves it to that caller.
use masterportal_admin.Base.{
  String, Bool, true, false, ◌==◌, eq_refl, Option, none, some, List, [], ◌∷◌, ◌≡◌, refl, sym, ◌∙◌,
  ap, arith, Result, ok, err, All, keep, map,
}
use masterportal_admin.Base.Dict
use masterportal_admin.Json.{Fields}
use masterportal_admin.Db.{Service, SourceService, Source, Db, scoped_key}
use masterportal_admin.Db.Table.{find, IsKeyed}
use masterportal_admin.Db.Query.{dict_of, get_or-dict_of, find-keep, keep-IsKeyed}
use masterportal_admin.Access.{user_roles, service_allowed}
use masterportal_admin.Source.{with_live_access}
use masterportal_admin.Source.Grants.{service_grants}
use masterportal_admin.Source.Grants.Exact.{
  FindsPrefix, roles_of, contains-service_grants, service_allowed_ext,
}
use masterportal_admin.Source.Render.{build_services, usable}
use masterportal_admin.Source.Legend.{public_service_attrs}
use masterportal_admin.Proxy.Authorize.{load_service, authorize, admit, service_key}

abbrev pub is_ok {ℓ} : {A : Type ℓ} → Result A → Bool
is_ok (ok _) = true
is_ok (err _) = false

-- The service of a source is a row of the catalog, under its scoped key.
pub record IsLive (db : Db) (catalog : String) (s : SourceService) : Type 0 where
  pub row : Service
  pub at_key : find service_key s.key db.services ≡ some row
  pub in_catalog : row.catalog ≡ catalog
  pub scoped : s.key ≡ scoped_key catalog s.external_id

-- `live.get(s["key"], s["is_public"])`
abbrev pub live_public : Db → String → SourceService → Bool
live_public db catalog s = Dict.get_or s.key s.is_public (
    dict_of (λ (r : Service). r.key) (λ r. r.is_public) []
      (keep (λ r. r.catalog == catalog) db.services))

abbrev pub overlaid : Db → String → SourceService → SourceService
overlaid db catalog s = record s { is_public = live_public db catalog s }

module _ (db : Db) (catalog : String) (keyed : IsKeyed service_key db.services) where
  live_public-row :
      (s : SourceService) (live : IsLive db catalog s)
      → live_public db catalog s ≡ live.row.is_public
  live_public-row s live =
      get_or-dict_of service_key (λ r. r.is_public) s.key s.is_public []
        (keep (λ r. r.catalog == catalog) db.services)
        (keep-IsKeyed service_key (λ r. r.catalog == catalog) db.services keyed)
      ∙ rw (find-keep service_key (λ r. r.catalog == catalog) s.key db.services keyed, live.at_key)
          (rw live.in_catalog (rw (eq_refl catalog) refl))

is_ok-authorize :
    (s : Service) (grants : List String) (uroles : Option (List String))
    → is_ok (authorize s grants uroles) ≡ service_allowed false grants uroles
is_ok-authorize s grants none = ground arith
is_ok-authorize s grants (some roles) = ground arith

is_ok-admit :
    (p : Bool) (s : Service) (grants : List String) (user : Option Fields)
    (uroles : Option (List String))
    → user_roles user ≡ ok uroles
    → is_ok (admit p s grants user) ≡ service_allowed p grants uroles
unfolding service_allowed
is_ok-admit true s grants user uroles e = refl
is_ok-admit false s grants user uroles e = rw e (is_ok-authorize s grants uroles)

is_ok-load_service :
    (db : Db) (key : String) (user : Option Fields) (uroles : Option (List String)) (row : Service)
    → find service_key key db.services ≡ some row
    → user_roles user ≡ ok uroles
    → is_ok (load_service db key user)
      ≡ service_allowed row.is_public (roles_of key db.service_roles) uroles
unfolding load_service
is_ok-load_service db key user uroles row at_key e =
    rw (at_key, load_service)
      (is_ok-admit row.is_public row (roles_of key db.service_roles) user uroles e)

module _ (like : String → String → Bool) (db : Db) (catalog : String) (user : Option Fields)
    (uroles : Option (List String)) (finds : FindsPrefix like)
    (keyed : IsKeyed service_key db.services) (roles_known : user_roles user ≡ ok uroles) where
  -- One service: the filter's condition is the proxy's decision.
  usable-load_service :
      (s : SourceService)
      → IsLive db catalog s
      → usable (service_grants like db catalog) uroles (overlaid db catalog s)
        ≡ is_ok (load_service db s.key user)
  usable-load_service s live = rw (live_public-row db catalog keyed s live) (
      service_allowed_ext live.row.is_public _ _ uroles
        (λ a. rw live.scoped (contains-service_grants like db catalog s.external_id a finds))
      ∙ sym (is_ok-load_service db s.key user uroles live.row live.at_key roles_known))

  keep-overlaid :
      (ss : List SourceService)
      → All (IsLive db catalog) ss
      → keep (usable (service_grants like db catalog) uroles) (map (overlaid db catalog) ss)
        ≡ map (overlaid db catalog) (keep (λ s. is_ok (load_service db s.key user)) ss)
  keep-overlaid [] h = refl
  keep-overlaid (s ∷ ss) (live, h) = ground (arith, usable-load_service s live, keep-overlaid ss h)

  -- services.json has exactly those services of the source for which the proxy answers the caller,
  -- in the order of the source and with their live `is_public`, if the source's services are rows of
  -- the catalog.
  pub build_services-load_service :
      (base : String) (source : Source)
      → All (IsLive db catalog) source.services
      → build_services base
          (with_live_access source db catalog)
          (service_grants like db catalog)
          uroles
        ≡ map
            (λ (s : SourceService). public_service_attrs base s.key s.attrs s.is_public)
            (map
              (overlaid db catalog)
              (keep (λ s. is_ok (load_service db s.key user)) source.services))
  unfolding build_services with_live_access
  build_services-load_service base source h =
      ap (map (λ (s : SourceService). public_service_attrs base s.key s.attrs s.is_public))
        (keep-overlaid source.services h)
