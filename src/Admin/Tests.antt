-- ===== src/Admin/Tests.antt =====
-- A portal with one layer, and the theorems about the administrator's changes at it.
use masterportal_admin.Admin.Services.{Patch, patch_fields, patch_service}
use masterportal_admin.Proxy.Authorize.{service_key}
use masterportal_admin.Admin.Services.Keeps.{identity, identity-patch_service}
use masterportal_admin.Base.{
  ℕ, String, Bool, true, false, not, ◌&&◌, ◌||◌, ◌==◌, eqb, Option, none, some, [], ◌∷◌, Result, ok,
  err, http, type_error, attribute_error, ◌≡◌, refl, if◌then◌else◌, ◌⊎◌,
}
use masterportal_admin.Base.Int.{pos}
use masterportal_admin.Json.{Value, null, str, arr, obj, int, bool, nil, cons, Fields, end, field}
use masterportal_admin.Json.Text.{to_text}
use masterportal_admin.Json.Object.{get, set, is_true}
use masterportal_admin.Db.{Db, Portal, Service, Snapshot, AdminSession}
use masterportal_admin.Db.Table.{find, alter}
use masterportal_admin.Auth
use masterportal_admin.Source.{live_source, active_source, find_snapshot}
use masterportal_admin.Access.Tree.{filter_layer_config, ids_of, is_folder, base_id}
use masterportal_admin.Admin.{portal_key, actor, audit}
use masterportal_admin.Admin.Snapshots.{publish, new_snapshot}
use masterportal_admin.Admin.Snapshots.Publish.{IsNumbered, active_source-publish}
use masterportal_admin.Admin.Grants.{
  Grant, add_grant, delete_grant, grant_row, key_of, put_grant, drop_grant, has_grant,
}
use masterportal_admin.Admin.Tree.{
  put_tree, validate_tree, check_groups, check_group, walk, strip_uids, warnings_of,
}
use masterportal_admin.Admin.Tree.Safe.{filter_layer_config-validate_tree}
use masterportal_admin.Admin.Edits.{saved_tree, done, step, IsPublished}
use masterportal_admin.Admin.Edits.Frozen.{active_source_frozen}
use masterportal_admin.Admin.Edits.Roles.{is_granted, is_granted-add_grant, is_granted-delete_grant}
use masterportal_admin.Admin.Session.{
  AdminRequest, Refreshed, require_admin, validate_admin_access_token, live_session,
}
use masterportal_admin.Admin.Session.Admits.{IsAdmin, HasSession, require_admin-IsAdmin}

abbrev claims : Fields
claims = field "sub" (str "u1") (field "roles" (arr (cons (str "admin") nil)) end)

abbrev tree : Value
tree = obj (
    field "subjectlayer"
      (obj (field "elements" (arr (cons (obj (field "id" (str "1") end)) nil)) end)) end)

abbrev portal : Portal
portal = record {
  slug = "p";
  catalog = "city";
  description = none;
  portal_config = obj end;
  layer_config = obj end;
  active_snapshot_id = none;
}

abbrev road : Service
road = record {
  key = "city:1";
  catalog = "city";
  external_id = "1";
  position = 0;
  attrs = end;
  is_public = false;
  upstream_auth_env = none;
  allow_transactions = false;
}

abbrev session : AdminSession
session = record { sid = "s"; access = "token"; refresh = none; exp = 1000 }

abbrev tables : Db
tables = record {
  services = road ∷ [];
  rest_services = [];
  styles = [];
  portals = portal ∷ [];
  snapshots = [];
  next_snapshot = 1;
  service_roles = [];
  portal_roles = [];
  module_roles = [];
  audit_log = [];
  sessions = session ∷ [];
  pending_logins = [];
}

abbrev row : Snapshot
row = new_snapshot "t0" (str "u1") "p" portal tables

abbrev published_tables : Db
published_tables = record tables {
  snapshots = row ∷ [];
  next_snapshot = 2;
  portals = record portal { active_snapshot_id = some 1 } ∷ [];
  audit_log =
      record {
        ts = "t1";
        actor = str "u1";
        action = "portal.publish";
        target = "p";
        detail = field "version" (int (pos 1)) end;
      }
      ∷ [];
}

abbrev published_reply : Value
published_reply = obj (field "version" (int (pos 1)) (field "active" (bool true) end))

published_p : publish "t0" "t1" claims "p" tables ≡ ok (published_reply, published_tables)
unfolding publish find alter actor audit get
published_p = refl

active_source-publish_example :
    (draft : Portal) × (published : Portal) × (find portal_key "p" tables.portals ≡ some draft)
    × (find portal_key "p" published_tables.portals ≡ some published)
    × (active_source published published_tables ≡ live_source draft tables)
    × IsNumbered published_tables
active_source-publish_example =
    active_source-publish "t0" "t1" claims "p" tables published_tables published_reply published_p
      tt

abbrev column : Value → Result String
column (str s) = ok s
column v = err type_error

abbrev same : Value → ℕ → Bool
same (int (pos n)) m = eqb n m
same v m = false

abbrev tree_payload : Fields
tree_payload = field "layer_config" tree end

abbrev grant_payload : Fields
grant_payload = field "key" (str "city:1") (field "role" (str "staff") end)

abbrev saved_tables : Db
saved_tables = record published_tables {
  portals = record portal { active_snapshot_id = some 1; layer_config = tree } ∷ [];
  audit_log =
      record {
        ts = "t1";
        actor = str "u1";
        action = "portal.publish";
        target = "p";
        detail = field "version" (int (pos 1)) end;
      }
      ∷ record {
        ts = "t2";
        actor = str "u1";
        action = "tree.save";
        target = "p";
        detail = field "warnings" (int (pos 0)) end;
      }
      ∷ [];
}

abbrev saved_reply : Value
saved_reply = obj (field "ok" (bool true) (field "warnings" (arr nil) end))

accepted_tree : validate_tree tree ("1" ∷ []) ≡ ok []
unfolding validate_tree check_groups check_group walk warnings_of is_folder ids_of base_id get
accepted_tree = refl

saved_p : put_tree "t2" claims "p" tree_payload published_tables ≡ ok (saved_reply, saved_tables)
unfolding put_tree validate_tree check_groups check_group walk warnings_of is_folder ids_of base_id
    get find alter actor audit strip_uids
saved_p = refl

IsPublished-row : IsPublished "p" 1 row published_tables
unfolding find find_snapshot
IsPublished-row = ((record portal { active_snapshot_id = some 1 }, refl, refl), refl)

active_source_frozen_example :
    (p : Portal) × (find portal_key "p" saved_tables.portals ≡ some p)
    × (active_source p saved_tables ≡ row.content)
active_source_frozen_example =
    active_source_frozen column same "p" 1 row refl published_tables saved_tables
      (step
        (saved_tree "t2" "p" claims tree_payload saved_reply published_tables saved_tables saved_p)
        done)
      IsPublished-row

filter_layer_config-validate_tree_example :
    (filtered : Value) × (filter_layer_config tree ("1" ∷ "2" ∷ []) ("2" ∷ []) ≡ ok filtered)
filter_layer_config-validate_tree_example =
    filter_layer_config-validate_tree tree ("1" ∷ []) [] accepted_tree ("1" ∷ "2" ∷ []) ("2" ∷ [])

abbrev granted_tables : Db
granted_tables = record tables {
  service_roles = record { service_key = "city:1"; role = "staff" } ∷ [];
  audit_log =
      record {
        ts = "t3";
        actor = str "u1";
        action = "grant.service.add";
        target = "{'key': 'city:1', 'role': 'staff'}";
        detail = grant_payload;
      }
      ∷ [];
}

abbrev ok_reply : Value
ok_reply = obj (field "ok" (bool true) end)

asked_grant :
    grant_row column "service" grant_payload tables ≡ ok (Grant.service_grant "city:1" "staff")
unfolding grant_row key_of find get is_true
asked_grant = refl

asked_again :
    grant_row column "service" grant_payload granted_tables
    ≡ ok (Grant.service_grant "city:1" "staff")
unfolding grant_row key_of find get is_true
asked_again = refl

granted_staff :
    add_grant column "t3" claims "service" grant_payload tables ≡ ok (ok_reply, granted_tables)
unfolding add_grant grant_row key_of find get is_true put_grant actor audit to_text
granted_staff = refl

is_granted-add_grant_example :
    is_granted "city:1" "staff" granted_tables
    ≡ (is_granted "city:1" "staff" tables || "city:1" == "city:1" && "staff" == "staff")
is_granted-add_grant_example =
    is_granted-add_grant column "t3" claims "service" grant_payload tables granted_tables ok_reply
      "city:1" "staff" asked_grant granted_staff "city:1" "staff"

abbrev revoked_tables : Db
revoked_tables = record granted_tables {
  service_roles = [];
  audit_log =
      record {
        ts = "t3";
        actor = str "u1";
        action = "grant.service.add";
        target = "{'key': 'city:1', 'role': 'staff'}";
        detail = grant_payload;
      }
      ∷ record {
        ts = "t4";
        actor = str "u1";
        action = "grant.service.delete";
        target = "{'key': 'city:1', 'role': 'staff'}";
        detail = grant_payload;
      }
      ∷ [];
}

revoked_staff :
    delete_grant column "t4" claims "service" grant_payload granted_tables
    ≡ ok (ok_reply, revoked_tables)
unfolding delete_grant grant_row key_of find get is_true drop_grant has_grant actor audit to_text
revoked_staff = refl

is_granted-delete_grant_example : is_granted "city:1" "staff" revoked_tables ≡ (
    is_granted "city:1" "staff" granted_tables && not ("city:1" == "city:1" && "staff" == "staff"))
is_granted-delete_grant_example =
    is_granted-delete_grant column "t4" claims "service" grant_payload granted_tables revoked_tables
      ok_reply "city:1" "staff" asked_again revoked_staff "city:1" "staff"

abbrev validate : String → Option Fields
validate token = if token == "token" then some claims else none

abbrev endpoint : String → Option Refreshed
endpoint token = none

abbrev write : AdminRequest
write = record { method = "POST"; bearer = none; session = "s"; origin = "https://portal" }

admitted : (require_admin validate endpoint ("https://portal" ∷ []) 500 write tables).0 ≡ ok claims
unfolding require_admin find live_session validate_admin_access_token Auth.roles get
admitted = refl

-- The same write from a page of another origin is refused.
foreign_refused :
    (require_admin validate endpoint
      ("https://portal" ∷ [])
      500
      (record write { origin = "https://evil" })
      tables).0
    ≡ err (http 403)
unfolding require_admin find live_session
foreign_refused = refl

require_admin-IsAdmin_example :
    ((token : String) × (write.bearer ≡ some token) × IsAdmin validate token claims)
    ⊎ HasSession validate endpoint ("https://portal" ∷ []) 500 write tables claims
require_admin-IsAdmin_example =
    require_admin-IsAdmin validate endpoint ("https://portal" ∷ []) 500 write tables claims admitted

abbrev bools : Value → Result Bool
bools (bool b) = ok b
bools v = err type_error

abbrev texts : Value → Result (Option String)
texts null = ok none
texts (str s) = ok (some s)
texts v = err type_error

abbrev patch : Fields
patch = field "is_public" (bool true) end

-- What no request reaches, since other attributes are refused first.
abbrev no_field : String → Value → Patch → Result Patch
no_field k v p = err attribute_error

abbrev patched_road : Service
patched_road = record road { is_public = true }

abbrev patched_tables : Db
patched_tables = record tables {
  services = patched_road ∷ [];
  audit_log =
      record {
        ts = "t5";
        actor = str "u1";
        action = "service.patch";
        target = "city:1";
        detail =
            field "is_public" (obj (field "old" (bool false) (field "new" (bool true) end))) end;
      }
      ∷ [];
}

made_public :
    patch_service bools texts no_field "t5" claims "city:1" patch tables
    ≡ ok (patched_road, patched_tables)
unfolding patch_service patch_fields set find alter actor audit get
made_public = refl

-- The upstream's address is no field of a patch.
moved_refused :
    patch_service bools texts no_field "t5" claims "city:1" (field "attrs" (obj end) end) tables
    ≡ err (http 422)
unfolding patch_service find
moved_refused = refl

identity-patch_service_example :
    (old : Service) × (find service_key "city:1" tables.services ≡ some old)
    × (identity patched_road ≡ identity old)
    × (find service_key "city:1" patched_tables.services ≡ (
        if "city:1" == "city:1"
        then some patched_road
        else find service_key "city:1" tables.services))
    × (patched_tables.portals ≡ tables.portals)
    × (patched_tables.snapshots ≡ tables.snapshots)
identity-patch_service_example =
    identity-patch_service bools texts no_field "t5" claims "city:1" patch tables patched_tables
      patched_road "city:1" made_public
