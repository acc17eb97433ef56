-- ===== src/Admin/Settings.antt =====
-- The settings form, the module switch and the copy of a portal in app/admin.py.
--
-- The form and the switch read their answer after the commit: where that reading raises, the tables
-- are changed all the same. So these handlers return the answer and the tables apart.
mod Tests
use Prim.Native.Nat.{Ordering}
use Prim.Native.String.{compare}
use masterportal_admin.Base.{
  String, Bool, true, false, not, ◌||◌, Option, none, some, List, [], ◌∷◌, map, Result, ok, err,
  http, Error, attribute_error, key_error, value_error, ◌>>=◌, if◌then◌else◌,
}
use masterportal_admin.Base.Text.{strip}
use masterportal_admin.Json.{Value, null, bool, obj, arr, str, Fields, end, field, of_list}
use masterportal_admin.Json.Object.{get, get_or, is_true, keys}
use masterportal_admin.Json.Update.{is_text, put, with_default}
use masterportal_admin.Db.{Db, Portal}
use masterportal_admin.Db.Table.{find, alter, add}
use masterportal_admin.PortalConfig.{controls, module_catalog}
use masterportal_admin.PortalConfig.Form.{is_null, extract_settings, apply_settings}
use masterportal_admin.PortalConfig.Modules.{set_module}
use masterportal_admin.Admin.{portal_key, item, audit}
use masterportal_admin.Admin.Portals.{text_or, or_none, check_slug}

insert_text : String → List String → List String
insert_text s [] = s ∷ []
insert_text s (t ∷ ts) =
    let rest = insert_text s ts in elim (compare s t) [ Ordering.gt ↦ t ∷ rest | _ ↦ s ∷ t ∷ ts ]

-- `sorted(texts)`
unfoldable pub sorted : List String → List String
unfolding insert_text
sorted [] = []
sorted (s ∷ ts) = insert_text s (sorted ts)

abbrev pub texts : List String → Value
texts ts = arr (of_list (map str ts))

unfoldable pub get_settings : String → Db → Result Value
unfolding controls
get_settings slug db = elim (find portal_key slug db.portals) [
  | none ↦ err (http 404)
  | some portal ↦ do
    settings ← extract_settings portal.portal_config
    ok (
        obj (
          field "slug" (str slug) (
            field "catalog" (str portal.catalog) (
              field "description" (str (elim portal.description [ none ↦ "" | some d ↦ d ])) (
                field "settings" settings (
                  field "moduleCatalog" module_catalog (field "controls" (texts controls) end)))))))
]

-- `payload.get("map", {}).get("startingMapMode") not in (None, "2D", "3D")`
abbrev pub check_mode : Fields → Result (Unit {0})
check_mode payload = do
  m ← get_or (obj payload) "map" (obj end)
  mode ← get_or m "startingMapMode" null
  (if is_null mode || is_text "2D" mode || is_text "3D" mode then ok tt else err (http 422))

-- `portal.description = …`, if the payload has a description.
abbrev pub described : Option Value → Portal → Result Portal
described none p = ok p
described (some v) p = do text ← text_or "" (some v); ok (record p { description = or_none text })

-- The portal after the form, or the error before the commit.
unfoldable pub patched : Fields → Portal → Result Portal
patched payload p = do
  checked ← check_mode payload
  q ← described (get "description" payload) p
  config ← apply_settings q.portal_config payload
  ok (record q { portal_config = config })

-- The row of the portal that the handler changed.
abbrev pub with_row : String → Portal → Db → Db
with_row slug q db = record db { portals = alter portal_key slug (λ old. q) db.portals }

abbrev pub patch_tables : String → Fields → String → Fields → Portal → Db → Result (Portal × Db)
patch_tables ts claims slug payload p db = do
  q ← patched payload p
  after ←
      audit ts claims "portal.settings" slug (field "keys" (texts (sorted (keys payload))) end)
        (with_row slug q db)
  ok (q, after)

abbrev pub answered_row : Db → Result (Portal × Db) → Result Value × Db
answered_row db (err e) = (err e, db)
answered_row db (ok (q, after)) = (extract_settings q.portal_config, after)

unfoldable pub patch_settings : String → Fields → String → Fields → Db → Result Value × Db
unfolding sorted
patch_settings ts claims slug payload db = elim (find portal_key slug db.portals) [
  | none ↦ (err (http 404), db)
  | some p ↦ answered_row db (patch_tables ts claims slug payload p db)
]

-- `except (KeyError, ValueError)`
abbrev pub as_unprocessable : Result Value → Result Value
as_unprocessable (err key_error) = err (http 422)
as_unprocessable (err value_error) = err (http 422)
as_unprocessable r = r

-- The body of the `try`.
abbrev pub toggled : Fields → Value → Result Value
toggled payload config = do
  menu ← item "menu" payload
  type ← item "type" payload
  enabled ← item "enabled" payload
  set_module config menu type (is_true enabled)

-- `{"menu": …, "type": …, "enabled": bool(…)}`
abbrev pub toggle_detail : Fields → Result Fields
toggle_detail payload = do
  menu ← item "menu" payload
  type ← item "type" payload
  enabled ← item "enabled" payload
  ok (field "menu" menu (field "type" type (field "enabled" (bool (is_true enabled)) end)))

abbrev pub toggle_tables : String → Fields → String → Fields → Portal → Db → Result (Portal × Db)
toggle_tables ts claims slug payload p db = do
  config ← as_unprocessable (toggled payload p.portal_config)
  detail ← toggle_detail payload
  let q : Portal = record p { portal_config = config }
  after ← audit ts claims "portal.module" slug detail (with_row slug q db)
  ok (q, after)

unfoldable pub toggle_module : String → Fields → String → Fields → Db → Result Value × Db
toggle_module ts claims slug payload db = elim (find portal_key slug db.portals) [
  | none ↦ (err (http 404), db)
  | some p ↦ answered_row db (toggle_tables ts claims slug payload p db)
]

-- `payload["title"].strip()`
abbrev pub stripped_title : Value → Result String
stripped_title (str s) = ok (strip s)
stripped_title v = err attribute_error

abbrev pub write_title : String → Value → Result Value
write_title title pc =
    with_default "mainMenu" (obj end) (with_default "title" (obj end) (put "text" (str title))) pc

-- The copied configuration, with the payload's title if there is one.
abbrev pub retitled : Option Value → Value → Result Value
retitled none pc = ok pc
retitled (some v) pc =
    if is_true v then (stripped_title v >>= λ title. write_title title pc) else ok pc

abbrev pub copied : String → Value → Portal → Portal
copied slug config p = record p {
  slug = slug;
  description = none;
  portal_config = config;
  active_snapshot_id = none;
}

abbrev pub clone_known : String → Fields → String → Fields → Portal → Db → Result (Value × Db)
clone_known ts claims slug payload p db = do
  new_slug ← text_or "" (get "slug" payload)
  free ← check_slug new_slug db
  config ← retitled (get "title" payload) p.portal_config
  after ←
      audit ts claims "portal.clone" new_slug (field "from" (str slug) end)
        (record db { portals = add portal_key (copied new_slug config p) db.portals })
  ok (obj (field "slug" (str new_slug) (field "catalog" (str p.catalog) end)), after)

unfoldable pub clone_portal : String → Fields → String → Fields → Db → Result (Value × Db)
clone_portal ts claims slug payload db = elim (find portal_key slug db.portals) [
  | none ↦ err (http 404)
  | some p ↦ clone_known ts claims slug payload p db
]
