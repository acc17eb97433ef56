-- ===== src/Import/Tests.antt =====
-- An import over a catalog whose service had credentials.
use masterportal_admin.Base.{true, false, none, some, List, [], ◌∷◌, ok, ◌≡◌, refl}
use masterportal_admin.Base.Int.{pos}
use masterportal_admin.Json.{Value, int, str, arr, obj, nil, cons, Fields, end, field}
use masterportal_admin.Db.{Db, Service, scoped_key}
use masterportal_admin.Db.Table.{find, merge}
use masterportal_admin.Import.{
  Warning, import_portal, seed_if_empty, validate_config, texts_at, group_warnings, walk_layers,
  import_catalog, import_services, import_service, import_rest_services, import_styles,
  layer_warnings, unknown_ids, unknown_style_of,
}
use masterportal_admin.Json.Object.{get, get_or, is_true, iterate}
use masterportal_admin.Access.Tree.{is_folder, ids_of, base_id}
use masterportal_admin.Json.Text.{to_text, repr, quoted, int_text}
use masterportal_admin.Base.Text.{before, decimal}
use masterportal_admin.Import.Keeps.{KeepsEnv, import_portal-KeepsEnv}

abbrev secured : Service
secured = record {
  key = "city:1";
  catalog = "city";
  external_id = "1";
  position = 4;
  attrs = end;
  is_public = false;
  upstream_auth_env = some "UPSTREAM_SECRET_ROAD";
  allow_transactions = true;
}

abbrev tables : Db
tables = record {
  services = secured ∷ [];
  rest_services = [];
  styles = [];
  portals = [];
  snapshots = [];
  next_snapshot = 1;
  service_roles = [];
  portal_roles = [];
  module_roles = [];
  audit_log = [];
  sessions = [];
  pending_logins = [];
}

abbrev entry : Fields
entry = field "id" (int (pos 1)) end

abbrev layers : Value
layers = arr (
    cons (obj (field "id" (str "1.2") end))
      (cons (obj (field "id" (str "9") (field "styleId" (str "s") end))) nil))

abbrev config : Value
config = obj (
    field "portalConfig" (obj end) (
      field "layerConfig" (obj (field "subjectlayer" (obj (field "elements" layers end)) end)) end))

abbrev imported : Db
imported = record tables {
  services =
      record secured { position = 0; attrs = entry; is_public = true; allow_transactions = false }
      ∷ [];
  portals =
      record {
        slug = "p";
        catalog = "city";
        description = none;
        portal_config = obj end;
        layer_config = obj (field "subjectlayer" (obj (field "elements" layers end)) end);
        active_snapshot_id = none;
      }
      ∷ [];
}

abbrev warnings : List Warning
warnings = Warning.unknown_service (str "9") ∷ Warning.unknown_style (str "s") ∷ []

ran :
    import_portal "p" "city" config (obj entry ∷ obj end ∷ []) [] [] tables
    ≡ ok (warnings, imported)
unfolding import_portal validate_config texts_at group_warnings walk_layers import_catalog
    import_services import_service import_rest_services import_styles layer_warnings unknown_ids
    unknown_style_of get get_or is_true iterate is_folder ids_of base_id merge scoped_key find
    to_text repr quoted int_text before decimal
ran = refl

-- The service is public now, and its credentials are still in the row.
import_portal-KeepsEnv_example : KeepsEnv "city:1" secured imported.services
unfolding find
import_portal-KeepsEnv_example =
    import_portal-KeepsEnv "p" "city" config (obj entry ∷ obj end ∷ []) [] [] tables imported
      warnings "city:1" secured ran refl

-- A second start seeds nothing.
seeded_once : seed_if_empty true config [] [] [] imported ≡ ok imported
unfolding seed_if_empty
seeded_once = refl
