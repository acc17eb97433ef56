-- ===== src/Source/Tests.antt =====
-- A small catalog, and the theorems about the served documents at it.
use Prim.Native.Char.{Char, code}
use Prim.Native.String
use text.Mathlib.TextLemmas.{cons-append, nil-append}
use masterportal_admin.Base.{
  String, Bool, true, false, ◌&&◌, ◌||◌, ◌≡◌, refl, ◌==◌, eqb, Option, none, some, [], ◌∷◌,
  contains, arith, ok, err, http, map, keep, ◌≢◌,
}
use masterportal_admin.Base.Dict
use masterportal_admin.Base.Text.{decimal}
use masterportal_admin.Json.{Value, str, arr, obj, bool, Items, nil, cons, Fields, end, field}
use masterportal_admin.Json.Object.{get, set}
use masterportal_admin.Db.{Service, SourceService, Source, Db, scoped_key}
use masterportal_admin.Db.Table.{find, IsKeyed}
use masterportal_admin.Auth
use masterportal_admin.Access.{user_roles, service_allowed}
use masterportal_admin.Source.{with_live_access, frozen_service}
use masterportal_admin.Source.Legend.{legend_urls_of, legend_url, geo_url, public_service_attrs}
use masterportal_admin.Source.Legend.Index.{AllServed, Served}
use masterportal_admin.Source.Legend.Entry.{
  legend-public_service_attrs, legend_url-public_service_attrs, get-public_service_attrs,
}
use masterportal_admin.Source.Grants.{service_grants}
use masterportal_admin.Source.Grants.Exact.{FindsPrefix, roles_of, contains-service_grants}
use masterportal_admin.Source.Render.{build_services}
use masterportal_admin.Proxy.Authorize.{load_service, service_key}
use masterportal_admin.Proxy.Authorize.Agreement.{
  IsLive, is_ok, overlaid, build_services-load_service,
}

-- `LIKE` without wildcards but a `%` at the end.
like_prefix : String → String → Bool
like_prefix s String.[] = s == ""
like_prefix String.[] (String.◌∷◌ p ps) = eqb (code p) b'%' && ps == ""
like_prefix (String.◌∷◌ c s) (String.◌∷◌ p ps) =
    eqb (code p) b'%' && ps == "" || eqb (code c) (code p) && like_prefix s ps

like_any : (s : String) → like_prefix s "%" ≡ true
unfolding like_prefix
like_any String.[] = refl
like_any (String.◌∷◌ c s) = refl

like_self :
    (c : Char) (s ps : String)
    → like_prefix s ps ≡ true
    → like_prefix (String.◌∷◌ c s) (String.◌∷◌ c ps) ≡ true
unfolding like_prefix
like_self c s ps h = ground arith

like_prefix-FindsPrefix : FindsPrefix like_prefix
like_prefix-FindsPrefix catalog e = unfold scoped_key in go catalog
  where
    rest : String
    rest = String.◌++◌ e ""

    colon : like_prefix (String.◌++◌ ":" rest) ":%" ≡ true
    colon =
        rw cons-append (like_self ":" (String.◌++◌ "" rest) "%" (like_any (String.◌++◌ "" rest)))

    go :
        (s : String)
        → like_prefix (String.◌++◌ s (String.◌++◌ ":" rest)) (String.◌++◌ s (String.◌++◌ ":%" ""))
          ≡ true
    go String.[] = rw (nil-append (String.◌++◌ ":" rest)) colon
    go (String.◌∷◌ c s) =
        rw (cons-append c s (String.◌++◌ ":" rest))
          (rw (cons-append c s (String.◌++◌ ":%" "")) (like_self c _ _ (go s)))

abbrev road : Service
road = record {
  key = "city:1";
  catalog = "city";
  external_id = "1";
  position = 0;
  attrs = field "url" (str "https://up/wms") (
      field "legendURL" (str "http://up/l.png")
        (field "legend" (arr (cons (str "ignore") (cons (str "https://up/m.png") nil))) end));
  is_public = false;
  upstream_auth_env = some "UPSTREAM_SECRET_ROAD";
  allow_transactions = false;
}

abbrev park : Service
park = record road {
  key = "city:2";
  external_id = "2";
  position = 1;
  attrs = end;
  is_public = true;
}

abbrev city : Db
city = record {
  services = road ∷ park ∷ [];
  rest_services = [];
  styles = [];
  portals = [];
  snapshots = [];
  next_snapshot = 1;
  service_roles = record { service_key = "city:1"; role = "user" } ∷ [];
  portal_roles = [];
  module_roles = [];
  audit_log = [];
  sessions = [];
  pending_logins = [];
}

abbrev draft : Source
draft = record {
  portal_config = obj end;
  layer_config = obj end;
  services = frozen_service road ∷ frozen_service park ∷ [];
  styles = [];
  rest_services = [];
}

abbrev user : Option Fields
user = some (field "roles" (arr (cons (str "user") nil)) end)

IsLive-road : IsLive city "city" (frozen_service road)
unfolding find scoped_key
IsLive-road = record { row = road; at_key = refl; in_catalog = refl; scoped = refl }

IsLive-park : IsLive city "city" (frozen_service park)
unfolding find scoped_key
IsLive-park = record { row = park; at_key = refl; in_catalog = refl; scoped = refl }

city-IsKeyed : IsKeyed service_key city.services
unfolding find
city-IsKeyed = (refl, (refl, tt))

user_known : user_roles user ≡ ok (some ("user" ∷ []))
unfolding user_roles Auth.roles get
user_known = refl

build_services-load_service_example :
    build_services "https://portal"
      (with_live_access draft city "city")
      (service_grants like_prefix city "city")
      (some ("user" ∷ []))
    ≡ map
        (λ (s : SourceService). public_service_attrs "https://portal" s.key s.attrs s.is_public)
        (map
          (overlaid city "city")
          (keep (λ s. is_ok (load_service city s.key user)) draft.services))
build_services-load_service_example =
    build_services-load_service like_prefix city "city" user (some ("user" ∷ []))
      like_prefix-FindsPrefix city-IsKeyed user_known "https://portal" draft
      (IsLive-road, (IsLive-park, tt))

contains-service_grants_example :
    contains
      (Dict.get_or (scoped_key "city" "1") [] (service_grants like_prefix city "city"))
      "user"
    ≡ contains (roles_of (scoped_key "city" "1") city.service_roles) "user"
contains-service_grants_example =
    contains-service_grants like_prefix city "city" "1" "user" like_prefix-FindsPrefix

-- The proxy serves the secured road to its role, refuses another, and asks an anonymous caller to log
-- in; a key that is not there is 404.
load_service_tests :
    (load_service city "city:1" user ≡ ok road)
    × (load_service city "city:1" (some end) ≡ err (http 403))
    × (load_service city "city:1" none ≡ err (http 401))
    × (load_service city "city:2" none ≡ ok park)
    × (load_service city "city:3" user ≡ err (http 404))
unfolding load_service find user_roles Auth.roles service_allowed get
load_service_tests = (refl, refl, refl, refl, refl)

abbrev road_legend : Items
road_legend = cons (str "ignore") (cons (str "https://up/m.png") nil)

legend-public_service_attrs_example :
    (ws : Items) × (get "legend" (public_service_attrs "https://portal" "city:1" road.attrs false)
      ≡ some (arr ws))
    × AllServed "https://portal" "city:1" (legend_urls_of road.attrs) road_legend ws
unfolding get
legend-public_service_attrs_example =
    legend-public_service_attrs "https://portal" "city:1" road.attrs false road_legend refl

legend_url-public_service_attrs_example :
    (w : Value) × (get "legendURL" (public_service_attrs "https://portal" "city:1" road.attrs false)
      ≡ some w)
    × Served "https://portal" "city:1" (legend_urls_of road.attrs) (str "http://up/l.png") w
unfolding get
legend_url-public_service_attrs_example =
    legend_url-public_service_attrs "https://portal" "city:1" road.attrs false
      (str "http://up/l.png") refl

get-public_service_attrs_example :
    ((k : String)
      → k ≢ "url"
      → k ≢ "legendURL"
      → k ≢ "legend"
      → k ≢ "isSecured"
      → get k (public_service_attrs "https://portal" "city:1" road.attrs false) ≡ get k road.attrs)
    × ((u : String)
        → get "url" road.attrs ≡ some (str u)
        → get "url" (public_service_attrs "https://portal" "city:1" road.attrs false)
          ≡ some (str (geo_url "https://portal" "city:1")))
    × (false ≡ false
        → get "isSecured" (public_service_attrs "https://portal" "city:1" road.attrs false)
          ≡ some (bool true))
get-public_service_attrs_example =
    get-public_service_attrs "https://portal" "city:1" road.attrs false

served_road :
    public_service_attrs "https://portal" "city:1" road.attrs false
    ≡ field "url" (str "https://portal/geo/city:1") (
        field "legendURL" (str "https://portal/legends/city:1/0") (
          field "legend"
            (arr (cons (str "ignore") (cons (str "https://portal/legends/city:1/1") nil)))
            (field "isSecured" (bool true) end)))
unfolding public_service_attrs get set legend_url geo_url decimal
served_road = refl
