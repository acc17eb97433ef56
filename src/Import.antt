-- ===== src/Import.antt =====
-- import_portal.py and app/seed.py: the import of a portal's files into the tables. The files are
-- arguments, as the JSON documents that they hold; what the script prints is its list of warnings.
pub mod Check
pub mod Keeps
mod Tests
use masterportal_admin.Base.{
  ℕ, suc, String, Bool, true, false, not, ◌==◌, ◌&&◌, ◌||◌, ltb, Option, none, some, List, [], ◌∷◌,
  ◌++◌, length, contains, Result, ok, err, attribute_error, type_error, ◌>>=◌, if◌then◌else◌,
}
use masterportal_admin.Base.Text.{concat}
use masterportal_admin.Json.{
  Value, null, arr, obj, str, Items, nil, cons, Fields, end, field, to_list,
}
use masterportal_admin.Json.Object.{get, get_or, is_true, iterate}
use masterportal_admin.Json.Text.{to_text}
use masterportal_admin.Json.Update.{member, item}
use masterportal_admin.Db.{Db, Service, RestService, Style, Portal, scoped_key}
use masterportal_admin.Db.Table.{find, merge}
use masterportal_admin.Access.Tree.{base_id, ids_of, is_folder, prune_other}
use masterportal_admin.Proxy.Authorize.{service_key}
use masterportal_admin.Admin.{portal_key}
use masterportal_admin.Admin.Styles.{style_key}
unfoldable pub use Check.*

-- The credentials that `db.merge` leaves in the row, as the import does not name them.
abbrev pub kept_env : Option Service → Option String
kept_env none = none
kept_env (some s) = s.upstream_auth_env

abbrev pub imported_service : String → ℕ → String → Fields → Option Service → Service
imported_service catalog position external_id attrs old = record {
  key = scoped_key catalog external_id;
  catalog = catalog;
  external_id = external_id;
  position = position;
  attrs = attrs;
  is_public = true;
  upstream_auth_env = kept_env old;
  allow_transactions = false;
}

-- `db.merge(Service(…))`
abbrev pub merge_service : String → ℕ → String → Fields → List Service → List Service
merge_service catalog position external_id attrs rows =
    merge service_key
      (imported_service catalog position external_id attrs
        (find service_key (scoped_key catalog external_id) rows))
      rows

-- An entry that has an id; only a dict passes `s["id"]`.
abbrev pub import_entry : String → ℕ → Value → Value → List Service → Result (List Service)
import_entry catalog position id (obj d) rows =
    ok (merge_service catalog position (to_text id) d rows)
import_entry catalog position id v rows = err type_error

unfoldable pub import_service : String → ℕ → Value → List Service → Result (List Service)
import_service catalog position s rows = do
  there ← member "id" s
  (if there then (item "id" s >>= λ id. import_entry catalog position id s rows) else ok rows)

-- `for pos, s in enumerate(services)`
unfoldable pub import_services : String → ℕ → List Value → List Service → Result (List Service)
import_services catalog position [] rows = ok rows
import_services catalog position (s ∷ services) rows =
    import_service catalog position s rows >>= import_services catalog (suc position) services

abbrev pub rest_key : RestService → String
rest_key r = r.key

unfoldable pub import_rest_services :
    String → ℕ → List Value → List RestService → Result (List RestService)
import_rest_services catalog position [] rows = ok rows
import_rest_services catalog position (r ∷ rest) rows = do
  id ← item "id" r
  import_rest_services catalog (suc position) rest (
      merge rest_key
        (record {
          key = scoped_key catalog (to_text id);
          catalog = catalog;
          position = position;
          attrs = r;
        })
        rows)

-- The row of a style; only a dict passes `s["styleId"]`.
abbrev pub merge_style : String → ℕ → Value → Value → List Style → Result (List Style)
merge_style catalog position id (obj d) rows = ok (
    merge style_key
      (record {
        key = scoped_key catalog (to_text id);
        catalog = catalog;
        position = position;
        attrs = d;
      })
      rows)
merge_style catalog position id v rows = err type_error

unfoldable pub import_styles : String → ℕ → List Value → List Style → Result (List Style)
import_styles catalog position [] rows = ok rows
import_styles catalog position (s ∷ styles) rows = do
  id ← item "styleId" s
  merged ← merge_style catalog position id s rows
  import_styles catalog (suc position) styles merged

-- `db.merge(Portal(…))` of import_portal.py: the description and the active snapshot stay.
abbrev pub imported_portal : String → String → Value → Value → Option Portal → Portal
imported_portal slug catalog portal_config layer_config none = record {
  slug = slug;
  catalog = catalog;
  description = none;
  portal_config = portal_config;
  layer_config = layer_config;
  active_snapshot_id = none;
}
imported_portal slug catalog portal_config layer_config (some p) = record p {
  slug = slug;
  catalog = catalog;
  portal_config = portal_config;
  layer_config = layer_config;
}

abbrev pub merge_portal : String → String → Value → Value → List Portal → List Portal
merge_portal slug catalog portal_config layer_config rows =
    merge portal_key
      (imported_portal slug catalog portal_config layer_config (find portal_key slug rows)) rows

-- The three loops over a catalog's files.
unfoldable pub import_catalog : String → List Value → List Value → List Value → Db → Result Db
import_catalog catalog services rest styles db = do
  s ← import_services catalog 0 services db.services
  r ← import_rest_services catalog 0 rest db.rest_services
  t ← import_styles catalog 0 styles db.styles
  ok (record db { services = s; rest_services = r; styles = t })

-- `main` of import_portal.py, from the loaded files on: the warnings, and the tables.
unfoldable pub import_portal :
    String → String → Value → List Value → List Value → List Value → Db → Result (List Warning × Db)
import_portal slug catalog config services rest styles db = do
  warnings ← validate_config config services styles
  filled ← import_catalog catalog services rest styles db
  portal_config ← item "portalConfig" config
  layer_config ← item "layerConfig" config
  ok (
    warnings,
    record filled { portals = merge_portal slug catalog portal_config layer_config filled.portals },
  )

-- The bundled portal of app/seed.py.
abbrev pub seeded_portal : Value → Value → Portal
seeded_portal portal_config layer_config = record {
  slug = "basic";
  catalog = "basic";
  description = some "Starting-point portal (bundled seed)";
  portal_config = portal_config;
  layer_config = layer_config;
  active_snapshot_id = none;
}

abbrev pub seed : Value → List Value → List Value → List Value → Db → Result Db
seed config services rest styles db = do
  filled ← import_catalog "basic" services rest styles db
  portal_config ← item "portalConfig" config
  layer_config ← item "layerConfig" config
  ok (record filled {
    portals = merge portal_key (seeded_portal portal_config layer_config) filled.portals;
  })

-- `db.query(Portal).count() > 0`, and the directory of the files.
unfoldable pub seed_if_empty : Bool → Value → List Value → List Value → List Value → Db → Result Db
seed_if_empty has_files config services rest styles db =
    if ltb 0 (length db.portals) || not has_files
    then ok db
    else seed config services rest styles db
