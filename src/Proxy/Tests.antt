-- ===== src/Proxy/Tests.antt =====
-- The proxy's theorems at a service with a secret and at a sub-path.
use masterportal_admin.Base.{ℕ, ◌+◌, ◌*◌, ◌≤◌}
use masterportal_admin.Base.Dict
use masterportal_admin.Db.{Db}
use masterportal_admin.Db.Table.{find}
use masterportal_admin.Json.Object.{get}
use masterportal_admin.Proxy.Authorize.{load_service}
use masterportal_admin.Proxy.Upstream.{
  Address, host_is_public, is_denied, is_stale, assert_allowed_host, assert_allowed_upstream,
}
use masterportal_admin.Proxy.Upstream.Fresh.{IsSound, assert_allowed_host_fresh}
use masterportal_admin.Proxy.Body.{
  is_transaction, matches_tag, transaction_name, read_capped_body, read_capped,
}
use masterportal_admin.Proxy.Handler.{
  ClientRequest, UpstreamRequest, Surroundings, proxy, headers_of, body_of,
}
use masterportal_admin.Proxy.Handler.Guarded.{Sent, proxy_guarded}
use masterportal_admin.Proxy.Secret.{upstream_base}
use masterportal_admin.Base.{
  String, ◌≡◌, refl, true, false, ok, err, http, [], ◌∷◌, Option, none, some, All, ◌⊎◌, ◌==◌,
  eq_iff, Bool-cases, inl, inr, ap, sym, ◌∙◌, if◌then◌else◌,
}
use masterportal_admin.Base.Text.{concat, truthy, split}
use masterportal_admin.Base.Bytes.{encode, base64, quote}
use masterportal_admin.Base.Dict.{Dict}
use masterportal_admin.Json.{str, end, field}
use masterportal_admin.Db.{Service}
use masterportal_admin.Source.Legend.{geo_url}
use masterportal_admin.Base.{ltb, List}
use text.Mathlib.Text.{starts_with}
use masterportal_admin.Proxy.Secret.{
  upstream_auth_header, upstream_auth_header_prefix_only, upstream_auth_header_fails_closed,
  secret_prefix,
}
use masterportal_admin.Proxy.Subpath.{segments_of, join_subpath, join, is_safe}
use masterportal_admin.Proxy.Subpath.Quote.{IsPlain}
use masterportal_admin.Proxy.Subpath.Inside.{join_subpath_inside}

abbrev road : Service
road = record {
  key = "city:1";
  catalog = "city";
  external_id = "1";
  position = 0;
  attrs = field "url" (str "https://up/wms") end;
  is_public = false;
  upstream_auth_env = some "UPSTREAM_SECRET_ROAD";
  allow_transactions = false;
}

abbrev env : String → Option String
env name = if name == "UPSTREAM_SECRET_ROAD" then some "bob:pw" else none

abbrev with_database_url : String → Option String
with_database_url name = if name == "DATABASE_URL" then some "postgres://x" else env name

abbrev road_secret : Dict String
road_secret = ("Authorization", "Basic Ym9iOnB3") ∷ []

road_header : upstream_auth_header env road ≡ ok road_secret
unfolding upstream_auth_header base64 encode
road_header = refl

-- A row that names another variable of the process gets no header but 503.
foreign_refused :
    upstream_auth_header with_database_url (record road { upstream_auth_env = some "DATABASE_URL" })
    ≡ err (http 503)
unfolding upstream_auth_header
foreign_refused = refl

same_secrets :
    (name : String) → starts_with name secret_prefix ≡ true → with_database_url name ≡ env name
same_secrets name h = elim (Bool-cases (name == "DATABASE_URL")) [
  | inr other ↦ rw other refl
  | inl own ↦
      let e : name ≡ "DATABASE_URL" = (eq_iff name "DATABASE_URL").0 own in
      let h' : starts_with "DATABASE_URL" secret_prefix ≡ true =
        ap (λ n. starts_with n secret_prefix) (sym e) ∙ h in
      cc
]

upstream_auth_header_prefix_only_example :
    upstream_auth_header with_database_url road ≡ upstream_auth_header env road
upstream_auth_header_prefix_only_example =
    upstream_auth_header_prefix_only with_database_url env road same_secrets

upstream_auth_header_fails_closed_example :
    (secret : String) × (starts_with "UPSTREAM_SECRET_ROAD" secret_prefix ≡ true)
    × (env "UPSTREAM_SECRET_ROAD" ≡ some secret)
    × (truthy secret ≡ true)
    × (road_secret ≡ ("Authorization", concat ("Basic " ∷ base64 (encode secret) ∷ [])) ∷ [])
upstream_auth_header_fails_closed_example =
    upstream_auth_header_fails_closed env road "UPSTREAM_SECRET_ROAD" road_secret refl refl
      road_header

abbrev road_target : String
road_target = "https://up/x/a/b%20c"

road_joined : join_subpath "https://up/x" "a//./b c" ≡ ok road_target
unfolding join_subpath join quote is_safe
road_joined = refl

join_subpath_inside_example :
    (road_target ≡ "https://up/x")
    ⊎ ((rest : String) × (road_target ≡ concat ("https://up/x" ∷ "/" ∷ rest ∷ []))
        × All IsPlain (split b'/' rest))
join_subpath_inside_example = join_subpath_inside "https://up/x" "a//./b c" road_target road_joined

abbrev public_address : Address
public_address = record {
  is_private = false;
  is_loopback = false;
  is_link_local = false;
  is_reserved = false;
  is_multicast = false;
  is_unspecified = false;
  is_shared = false;
  is_version_6 = false;
  maps_to_shared = none;
}

-- A name that points inside the network from the time 1000 on.
abbrev rebinding : ℕ → String → Option (List Address)
rebinding now host =
    some
      ((if ltb now 1000 then public_address else record public_address { is_loopback = true }) ∷ [])

empty-IsSound : IsSound rebinding []
unfolding Dict.get
empty-IsSound host allowed checked h = cc

assert_allowed_host_fresh_example :
    ((assert_allowed_host 1 false (rebinding 900) [] 900 "up").0 ≡ ok tt
      → (checked : ℕ) × (900 ≤ checked + 300 * 1)
        × (host_is_public (rebinding checked "up") ≡ true))
    × IsSound rebinding (assert_allowed_host 1 false (rebinding 900) [] 900 "up").1
assert_allowed_host_fresh_example = assert_allowed_host_fresh 1 rebinding [] 900 "up" empty-IsSound

abbrev tables : Db
tables = record {
  services = record road { is_public = true } ∷ [];
  rest_services = [];
  styles = [];
  portals = [];
  snapshots = [];
  next_snapshot = 1;
  service_roles = [];
  portal_roles = [];
  module_roles = [];
  audit_log = [];
  sessions = [];
  pending_logins = [];
}

abbrev surroundings : Surroundings
surroundings = record {
  base = "https://portal";
  second = 1;
  allow_private = false;
  max_request_bytes = 100;
  env = env;
  resolve = rebinding 900;
  hostname = λ url. some "up";
  origin = λ url. "https://up";
}

abbrev post : List ℕ → ClientRequest
post body = record {
  method = "POST";
  accept = none;
  content_type = none;
  query = "";
  chunks = body ∷ [];
}

abbrev sent : UpstreamRequest
sent = record {
  method = "POST";
  target = "https://up/wms";
  query = "";
  headers =
      ("Accept", "*/*")
      ∷ ("Authorization", "Basic Ym9iOnB3")
      ∷ ("Content-Type", "application/xml")
      ∷ [];
  body = some (b'<' ∷ b'a' ∷ []);
  rewrites =
      (encode "https://up/wms", encode "https://portal/geo/city:1")
      ∷ (encode "https://up", encode "https://portal/geo/city:1")
      ∷ [];
}

posted : (proxy surroundings tables [] 900 "city:1" "" none (post (b'<' ∷ b'a' ∷ []))).0 ≡ ok sent
unfolding proxy load_service find upstream_base get join_subpath segments_of upstream_auth_header
    base64 encode body_of read_capped_body read_capped is_transaction assert_allowed_upstream
    assert_allowed_host is_stale host_is_public is_denied Dict.get Dict.set geo_url matches_tag
    transaction_name
posted = refl

-- A transaction in UTF-16 is found.
utf_16_found : is_transaction (encode "<\0w\0f\0s\0:\0T\0r\0a\0n\0s\0a\0c\0t\0i\0o\0n\0>\0") ≡ true
unfolding is_transaction encode transaction_name matches_tag
utf_16_found = refl

-- A prefix with a hyphen, which XML allows, hides a transaction.
hyphen_missed : is_transaction (encode "<wfs-t:Transaction>") ≡ false
unfolding is_transaction encode transaction_name matches_tag
hyphen_missed = refl

proxy_guarded_example :
    (service : Service) × (base : String) × (auth : Dict String) × (load_service tables "city:1"
        none
      ≡ ok service)
    × (upstream_base service ≡ ok base)
    × ((assert_allowed_upstream 1 false (rebinding 900) (λ url. some "up") [] 900 base).0 ≡ ok tt)
    × (join_subpath base "" ≡ ok "https://up/wms")
    × (upstream_auth_header env service ≡ ok auth)
    × Sent 100 service "" (post (b'<' ∷ b'a' ∷ [])) (headers_of none auth) (sent.body, sent.headers)
proxy_guarded_example =
    proxy_guarded surroundings tables [] 900 "city:1" "" none (post (b'<' ∷ b'a' ∷ [])) sent posted
