-- ===== src/PortalConfig/Form.antt =====
-- `extract_settings` and `apply_settings` of app/portalcfg.py.
pub mod Frame
pub mod Title
pub mod Roundtrip
use masterportal_admin.Base.{
  String, Bool, true, false, not, ◌&&◌, ◌||◌, Option, none, some, List, [], ◌∷◌, ◌++◌, contains,
  Result, ok, err, attribute_error, type_error, ◌>>=◌, if◌then◌else◌,
}
use masterportal_admin.Json.{
  Value, null, bool, arr, obj, str, Items, nil, cons, Fields, end, field, to_list, of_list,
}
use masterportal_admin.Json.Object.{get, set, get_or, or_else, is_true}
use masterportal_admin.Json.Update.{
  is_text, has_key, member, item, put, pop, value_or, with_default,
}
use masterportal_admin.PortalConfig.{controls}
use masterportal_admin.PortalConfig.Modules.{menu_module_types}

-- `v.get(k, {}) or {}`
abbrev pub dict_at : String → Value → Result Value
dict_at k v = do w ← get_or v k (obj end); ok (or_else w (obj end))

abbrev pub title_keys : List String
title_keys = "text" ∷ "logo" ∷ "link" ∷ "toolTip" ∷ []

-- `{k: title.get(k, "") for k in …}`
unfoldable pub texts_of : Value → List String → Result Fields
texts_of title [] = ok end
texts_of title (k ∷ ks) = do
  v ← get_or title k (str "")
  rest ← texts_of title ks
  ok (field k v rest)

-- `{c: bool(controls.get(c)) for c in CONTROLS}`
unfoldable pub switches_of : Value → List String → Result Fields
switches_of v [] = ok end
switches_of v (c ∷ cs) = do
  on ← get_or v c null
  rest ← switches_of v cs
  ok (field c (bool (is_true on)) rest)

-- The title's texts, as `extract_settings` reads them.
unfoldable pub title_of : Value → Result Fields
title_of pc = do
  main ← get_or pc "mainMenu" (obj end)
  title ← dict_at "title" main
  texts_of title title_keys

unfoldable pub map_of : Value → Value → Result Fields
map_of mapc view = do
  mode ← get_or mapc "startingMapMode" (str "2D")
  center ← get_or view "startCenter" (arr nil)
  level ← get_or view "startZoomLevel" null
  extent ← get_or view "extent" (arr nil)
  epsg ← get_or view "epsg" (str "")
  background ← get_or view "backgroundImage" (str "")
  ok (
      field "startingMapMode" mode (
        field "startCenter" center (
          field "startZoomLevel" level
            (field "extent" extent (field "epsg" epsg (field "backgroundImage" background end))))))

-- `(pc.get("portalFooter", {}) or {}).get("urls", []) or []`
abbrev pub footer_of : Value → Result Value
footer_of pc = do
  footer ← dict_at "portalFooter" pc
  urls ← get_or footer "urls" (arr nil)
  ok (or_else urls (arr nil))

abbrev pub menu_types_of : String → Value → Result Value
menu_types_of menu pc = do
  m ← get_or pc menu (obj end)
  types ← menu_module_types m
  ok (arr (of_list types))

unfoldable pub extract_settings : Value → Result Value
extract_settings pc = do
  title ← title_of pc
  mapc ← get_or pc "map" (obj end)
  view ← dict_at "mapView" mapc
  control_config ← dict_at "controls" mapc
  urls ← footer_of pc
  map_settings ← map_of mapc view
  switches ← switches_of control_config controls
  main ← menu_types_of "mainMenu" pc
  secondary ← menu_types_of "secondaryMenu" pc
  ok (
      obj (
        field "title" (obj title) (
          field "footerUrls" urls (
            field "map" (obj map_settings) (
              field "controls" (obj switches) (
                field "modules" (obj (field "mainMenu" main (field "secondaryMenu" secondary end)))
                  end))))))

-- `if k in patch: f(patch[k])`
abbrev pub when_member : String → Value → (Value → Value → Result Value) → Value → Result Value
when_member k patch f target = do
  there ← member k patch
  (if there then (item k patch >>= λ v. f v target) else ok target)

-- `if v: target[k] = v` / `else: target.pop(k, None)`
abbrev pub put_or_pop : String → Value → Value → Result Value
put_or_pop k v target = if is_true v then put k v target else pop k target

abbrev pub put_if_true : String → Value → Value → Result Value
put_if_true k v target = if is_true v then put k v target else ok target

abbrev pub is_null : Value → Bool
is_null null = true
is_null v = false

abbrev pub put_if_given : String → Value → Value → Result Value
put_if_given k v target = if is_null v then ok target else put k v target

-- The loop over the title's keys.
unfoldable pub put_texts : List String → Value → Value → Result Value
put_texts [] patch title = ok title
put_texts (k ∷ ks) patch title = when_member k patch (put_or_pop k) title >>= put_texts ks patch

unfoldable pub apply_title : Value → Value → Result Value
apply_title patch pc =
    with_default "mainMenu" (obj end) (with_default "title" (obj end) (put_texts title_keys patch))
      pc

unfoldable pub apply_footer : Value → Value → Result Value
apply_footer urls pc = with_default "portalFooter" (obj end) (put "urls" urls) pc

-- `"3D" if v == "3D" else "2D"`
abbrev pub mode_of : Value → Value
mode_of v = if is_text "3D" v then str "3D" else str "2D"

-- The changes of `mapc["mapView"]`.
unfoldable pub apply_view : Value → Value → Result Value
apply_view m view = do
  v1 ← when_member "startCenter" m (put_if_true "startCenter") view
  v2 ← when_member "extent" m (put_if_true "extent") v1
  v3 ← when_member "startZoomLevel" m (put_if_given "startZoomLevel") v2
  v4 ← when_member "epsg" m (put_or_pop "epsg") v3
  when_member "backgroundImage" m (put_or_pop "backgroundImage") v4

-- `mapc` after `setdefault("mapView", {})`, the mode and the view.
unfoldable pub apply_map_config : Value → Value → Result Value
apply_map_config m mapc = do
  c1 ← with_default "mapView" (obj end) ok mapc
  c2 ← when_member "startingMapMode" m (λ v. put "startingMapMode" (mode_of v)) c1
  with_default "mapView" (obj end) (apply_view m) c2

unfoldable pub apply_map : Value → Value → Result Value
apply_map m pc = with_default "map" (obj end) (apply_map_config m) pc

-- One control: `setdefault(c, True)` or `pop(c, None)`.
abbrev pub switch : String → Value → Value → Result Value
switch c on target =
    if not (contains controls c)
    then ok target
    else if is_true on
    then with_default c (bool true) ok target
    else pop c target

unfoldable pub apply_switches : Fields → Value → Result Value
apply_switches end target = ok target
apply_switches (field c on patch) target = switch c on target >>= apply_switches patch

-- `patch["controls"].items()`
abbrev pub apply_control_config : Value → Value → Result Value
apply_control_config (obj patch) target = apply_switches patch target
apply_control_config v target = err attribute_error

unfoldable pub apply_controls : Value → Value → Result Value
apply_controls patch pc =
    with_default "map" (obj end) (with_default "controls" (obj end) (apply_control_config patch)) pc

-- `if k in patch: …`, for a patch that is a dict.
abbrev pub when_patched : String → Fields → (Value → Value → Result Value) → Value → Result Value
when_patched k patch f pc = elim (get k patch) [ none ↦ ok pc | some v ↦ f v pc ]

unfoldable pub apply_settings : Value → Fields → Result Value
apply_settings pc patch =
    when_patched "title" patch apply_title pc
    >>= when_patched "footerUrls" patch apply_footer
    >>= when_patched "map" patch apply_map
    >>= when_patched "controls" patch apply_controls
