-- ===== src/Admin/Capabilities/Tests.antt =====
-- An import of one layer over a service that was there.
use masterportal_admin.Json.Text.{to_text}
use masterportal_admin.Base.Text.{has_char, strip}
use masterportal_admin.Admin.{audit, actor}
use masterportal_admin.Base.{
  ℕ, String, true, false, Option, none, some, List, [], ◌∷◌, Result, ok, err, type_error, ◌≡◌, refl,
  ◌⊎◌,
}
use masterportal_admin.Base.Bytes.{encode}
use masterportal_admin.Base.Dict
use masterportal_admin.Json.{Value, bool, str, arr, obj, nil, cons, Fields, end, field}
use masterportal_admin.Json.Object.{get, is_true}
use masterportal_admin.Db.{Db, Service, scoped_key}
use masterportal_admin.Db.Table.{find, merge}
use masterportal_admin.Proxy.Upstream.{
  Address, HostCache, assert_allowed_upstream, assert_allowed_host, is_stale,
}
use masterportal_admin.Admin.Capabilities.{
  Element, element, Elements, layer_entry, import_capabilities, dry_run_of, fetch_document,
}
use masterportal_admin.Admin.Capabilities.Policy.{KeepsFound, import_capabilities-KeepsPolicy}

abbrev claims : Fields
claims = field "sub" (str "u1") end

abbrev secured : Service
secured = record {
  key = "city:imp_roads";
  catalog = "city";
  external_id = "imp_roads";
  position = 4;
  attrs = end;
  is_public = false;
  upstream_auth_env = some "UPSTREAM_SECRET_ROAD";
  allow_transactions = true;
}

abbrev tables : Db
tables = record {
  services = secured ∷ [];
  rest_services = [];
  styles = [];
  portals = [];
  snapshots = [];
  next_snapshot = 1;
  service_roles = [];
  portal_roles = [];
  module_roles = [];
  audit_log = [];
  sessions = [];
  pending_logins = [];
}

abbrev child : String → String → Element
child tag text = element tag none (some text) Elements.nil

-- A layer without a name that contains one with a name, in the namespace of WMS.
abbrev document : Element
document = element "{wms}WMS_Capabilities" (some "1.1.1") none (
    Elements.cons
      (element "{wms}Layer" none none (
        Elements.cons (child "{wms}Title" "All") (
          Elements.cons
            (element "{wms}Layer" none none (
              Elements.cons (child "{wms}Name" " roads ")
                (Elements.cons (child "{wms}Title" "Roads") Elements.nil)))
            Elements.nil)))
      Elements.nil)

abbrev column : Value → Result String
column (str s) = ok s
column v = err type_error

abbrev resolve : String → Option (List Address)
resolve host = none

abbrev hostname : String → Option String
hostname url = some "up"

abbrev cache : HostCache
cache = ("up", (true, 100)) ∷ []

abbrev base_of : String → String
base_of url = "https://up/wms"

abbrev fetch : String → Option (List (List ℕ))
fetch base = some (encode "<x/>" ∷ [])

abbrev parse : List ℕ → Option Element
parse body = some document

abbrev payload : Fields
payload =
    field "url" (str "https://up/wms?x=1")
      (field "catalog" (str "city") (field "dry_run" (bool false) end))

abbrev roads : Fields
roads = layer_entry "imp" "https://up/wms" "1.1.1" "roads" "Roads"

abbrev imported : Db
imported = record tables {
  services = record secured { position = 1; attrs = roads } ∷ [];
  audit_log =
      record {
        ts = "t";
        actor = str "u1";
        action = "capabilities.import";
        target = "https://up/wms";
        detail =
            field "catalog" (str "city") (field "layers" (arr (cons (str "imp_roads") nil)) end);
      }
      ∷ [];
}

abbrev reply : Value
reply = obj (
    field "url" (str "https://up/wms") (
      field "version" (str "1.1.1")
        (field "dry_run" (bool false) (field "layers" (arr (cons (obj roads) nil)) end))))

ran :
    import_capabilities column 1 false resolve hostname cache 200 base_of fetch parse "t" claims
      payload tables
    ≡ ok (reply, imported)
unfolding import_capabilities get assert_allowed_upstream assert_allowed_host is_stale Dict.get
    fetch_document encode is_true audit actor has_char strip to_text merge find scoped_key
ran = refl

import_capabilities-KeepsPolicy_example :
    (url : String) × (get "url" payload ≡ some (str url))
    × ((assert_allowed_upstream 1 false resolve hostname cache 200 url).0 ≡ ok tt)
    × (((dry_run_of payload ≡ true) × (imported ≡ tables))
        ⊎ ((dry_run_of payload ≡ false)
            × KeepsFound "city:imp_roads"
                (find (λ (s : Service). s.key) "city:imp_roads" tables.services)
                imported.services))
import_capabilities-KeepsPolicy_example =
    import_capabilities-KeepsPolicy column 1 false resolve hostname cache 200 base_of fetch parse
      "t" claims payload tables imported reply "city:imp_roads" ran
