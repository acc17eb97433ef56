-- ===== src/Portals.antt =====
-- The endpoints of app/main.py that serve a portal to its users.
pub mod Revalidate
mod Tests
use masterportal_admin.Base.{
  ℕ, String, Bool, ◌==◌, Option, none, some, List, [], ◌∷◌, map, keep, contains, Result, ok, err,
  http, ◌>>=◌, if◌then◌else◌,
}
use masterportal_admin.Base.Dict.{Dict}
use masterportal_admin.Base.Text.{split, strip, concat}
use masterportal_admin.Json.{Value, arr, obj, Fields, of_list}
use masterportal_admin.Db.{Db, Portal, PortalRole, Source}
use masterportal_admin.Db.Table.{find}
use masterportal_admin.Access.{user_roles, roles_satisfy}
use masterportal_admin.Source.{active_source, with_live_access}
use masterportal_admin.Source.Grants.{service_grants, module_restrictions}
use masterportal_admin.Source.Render.{build_services, build_config}

pub record Response : Type 0 where
  pub status : ℕ
  pub body : Option Value
  pub headers : Dict String

abbrev pub etag_of : String → String
etag_of digest = concat ("W/\"" ∷ digest ∷ "\"" ∷ [])

abbrev pub caching_headers : String → Dict String
caching_headers etag = ("ETag", etag) ∷ ("Cache-Control", "private, must-revalidate") ∷ []

-- `[t.strip() for t in header.split(",")]`
unfoldable pub tags_of : String → List String
unfolding split strip
tags_of header = map strip (split b',' header)

abbrev pub answer : Value → String → List String → Response
answer content etag tags =
    if contains tags etag
    then record { status = 304; body = none; headers = caching_headers etag }
    else record { status = 200; body = some content; headers = caching_headers etag }

-- `serve_config`; `digest` is the first 32 digits of the SHA-256 of the sorted JSON text, and
-- `if_none_match` the request's header, or the empty text.
unfoldable pub serve_config : (Value → String) → Value → String → Portal → Response
unfolding tags_of
serve_config digest content if_none_match portal = elim portal.active_snapshot_id [
  | none ↦ record {
    status = 200;
    body = some content;
    headers = ("Cache-Control", "no-store") ∷ [];
  }
  | some id ↦ answer content (etag_of (digest content)) (tags_of if_none_match)
]

abbrev pub portal_key : Portal → String
portal_key p = p.slug

-- The roles of a portal's rows.
unfoldable pub portal_roles_of : String → List PortalRole → List String
portal_roles_of slug rows =
    map (λ (r : PortalRole). r.role) (keep (λ r. r.portal_slug == slug) rows)

abbrev pub refuse : Option (List String) → Result Portal
refuse none = err (http 401)
refuse (some _) = err (http 403)

unfoldable pub get_portal : String → Db → Option (List String) → Result Portal
unfolding portal_roles_of
get_portal slug db uroles = elim (find portal_key slug db.portals) [
  | none ↦ err (http 404)
  | some portal ↦
      if roles_satisfy (portal_roles_of slug db.portal_roles) uroles
      then ok portal
      else refuse uroles
]

unfoldable pub list_portals : Db → List String
list_portals db = map (λ (p : Portal). p.slug) db.portals

-- The source of a portal with the live access on top.
abbrev pub current_source : Portal → Db → Source
current_source portal db = with_live_access (active_source portal db) db portal.catalog

module _ (like : String → String → Bool) (digest : Value → String) (base : String) (db : Db)
    (user : Option Fields) where
  unfoldable pub config_json : String → String → Result Response
  config_json slug if_none_match = do
    uroles ← user_roles user
    portal ← get_portal slug db uroles
    content ←
        build_config (current_source portal db) (service_grants like db portal.catalog)
          (module_restrictions db slug) uroles
    ok (serve_config digest content if_none_match portal)

  unfoldable pub services_json : String → String → Result Response
  services_json slug if_none_match = do
    uroles ← user_roles user
    portal ← get_portal slug db uroles
    let entries =
        build_services base (current_source portal db) (service_grants like db portal.catalog)
          uroles
    ok (serve_config digest (arr (of_list (map obj entries))) if_none_match portal)

  unfoldable pub rest_services_json : String → String → Result Response
  rest_services_json slug if_none_match = do
    uroles ← user_roles user
    portal ← get_portal slug db uroles
    ok (
        serve_config digest (arr (of_list (active_source portal db).rest_services)) if_none_match
          portal)

  unfoldable pub style_json : String → String → Result Response
  style_json slug if_none_match = do
    uroles ← user_roles user
    portal ← get_portal slug db uroles
    ok (serve_config digest (arr (of_list (active_source portal db).styles)) if_none_match portal)
