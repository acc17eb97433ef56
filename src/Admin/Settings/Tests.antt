-- ===== src/Admin/Settings/Tests.antt =====
-- The form's handlers on one portal.
use masterportal_admin.PortalConfig.{modules}
use masterportal_admin.PortalConfig.Modules.{set_module}
use masterportal_admin.Admin.{audit, actor}
use masterportal_admin.Json.Object.{get, get_or}
use masterportal_admin.Admin.Portals.{text_or, is_slug}
use masterportal_admin.Db.Table.{find}
use masterportal_admin.Base.{true, none, some, [], ◌∷◌, ok, err, http, ◌≡◌, refl}
use masterportal_admin.Json.{Value, bool, str, arr, obj, nil, cons, Fields, end, field}
use masterportal_admin.Db.{Db, Portal}
use masterportal_admin.Admin.Settings.{toggle_module, clone_portal, patch_settings, patched}

abbrev claims : Fields
claims = field "sub" (str "u1") end

abbrev config : Value
config = obj (field "mainMenu" (obj (field "sections" (arr (cons (arr nil) nil)) end)) end)

abbrev portal : Portal
portal = record {
  slug = "p";
  catalog = "city";
  description = none;
  portal_config = config;
  layer_config = obj end;
  active_snapshot_id = some 7;
}

abbrev tables : Db
tables = record {
  services = [];
  rest_services = [];
  styles = [];
  portals = portal ∷ [];
  snapshots = [];
  next_snapshot = 8;
  service_roles = [];
  portal_roles = [];
  module_roles = [];
  audit_log = [];
  sessions = [];
  pending_logins = [];
}

-- The copy has no active snapshot.
abbrev cloned : Db
cloned = record tables {
  portals = portal ∷ record portal { slug = "q"; active_snapshot_id = none } ∷ [];
  audit_log =
      record {
        ts = "t";
        actor = str "u1";
        action = "portal.clone";
        target = "q";
        detail = field "from" (str "p") end;
      }
      ∷ [];
}

clone_q :
    clone_portal "t" claims "p" (field "slug" (str " q ") end) tables
    ≡ ok (obj (field "slug" (str "q") (field "catalog" (str "city") end)), cloned)
unfolding clone_portal find text_or get is_slug audit actor
clone_q = refl

-- An unknown module is 422, and so is a missing key.
unknown_module :
    toggle_module "t" claims "p"
      (field "menu" (str "mainMenu") (field "type" (str "x") (field "enabled" (bool true) end)))
      tables
    ≡ (err (http 422), tables)
unfolding toggle_module find get set_module modules
unknown_module = refl

missing_key : toggle_module "t" claims "p" end tables ≡ (err (http 422), tables)
unfolding toggle_module find get
missing_key = refl

bad_mode :
    patch_settings "t" claims "p"
      (field "map" (obj (field "startingMapMode" (str "4D") end)) end)
      tables
    ≡ (err (http 422), tables)
unfolding patch_settings find patched get_or get
bad_mode = refl
