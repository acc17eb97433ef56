-- ===== src/Admin/Portals.antt =====
-- Creating, deleting and configuring portals in app/admin.py.
use Prim.Native.Char.{code}
use masterportal_admin.Base.{
  ℕ, suc, zero, String, Bool, true, false, not, ◌==◌, ◌&&◌, ◌||◌, leb, eqb, Option, none, some,
  List, [], ◌∷◌, length, keep, map, all, Result, ok, err, http, attribute_error, ◌>>=◌,
  if◌then◌else◌,
}
use masterportal_admin.Base.Int.{pos}
use masterportal_admin.Base.Text.{truthy, strip}
use masterportal_admin.Json.{
  Value, null, bool, int, obj, arr, str, nil, cons, Fields, end, field, of_list,
}
use masterportal_admin.Json.Object.{get, get_or, is_true, is_dict, is_list, or_else}
use masterportal_admin.Db.{Db, Portal}
use masterportal_admin.Db.Table.{find, alter, add, delete}
use masterportal_admin.Admin.{portal_key, audit}

-- `SLUG_RE`
abbrev is_alnum : ℕ → Bool
is_alnum c = leb b'a' c && leb c b'z' || leb b'0' c && leb c b'9'

abbrev is_slug_char : ℕ → Bool
is_slug_char c = is_alnum c || eqb c b'_' || eqb c b'-'

slug_rest : ℕ → String → Bool
slug_rest n String.[] = true
slug_rest zero (String.◌∷◌ c s) = false
slug_rest (suc n) (String.◌∷◌ c s) = is_slug_char (code c) && slug_rest n s

unfoldable pub is_slug : String → Bool
unfolding slug_rest
is_slug String.[] = false
is_slug (String.◌∷◌ c s) = is_alnum (code c) && slug_rest 40 s

-- `(v or default).strip()`
unfoldable pub text_or : String → Option Value → Result String
unfolding strip
text_or default none = ok (strip default)
text_or default (some (str s)) = ok (strip (if truthy s then s else default))
text_or default (some v) = if is_true v then err attribute_error else ok (strip default)

-- `portalcfg.starter(title)`
abbrev pub starter_portal_config : String → Value
starter_portal_config title = obj (
    field "map"
      (obj (
        field "startingMapMode" (str "2D") (
          field "mapView"
            (obj (
              field "startCenter" (arr (cons (int (pos 561210)) (cons (int (pos 5932600)) nil)))
                (field "startZoomLevel" (int (pos 1)) (field "epsg" (str "EPSG:25832") end))))
            (field "controls"
              (obj (
                field "zoom" (bool true)
                  (field "orientation" (obj (field "zoomMode" (str "once") end)) end)))
              end))))
      (field "mainMenu"
        (obj (
          field "expanded" (bool true) (
            field "title" (obj (field "text" (str title) end)) (
              field "sections"
                (arr (
                  cons
                    (arr (
                      cons (obj (field "type" (str "about") end))
                        (cons (obj (field "type" (str "login") end)) nil)))
                    nil))
                end))))
        (field "secondaryMenu" (obj (field "sections" (arr (cons (arr nil) nil)) end))
          (field "portalFooter" (obj (field "urls" (arr nil) end)) (field "tree" (obj end) end)))))

abbrev pub starter_layer_config : Value
starter_layer_config = obj (
    field "baselayer" (obj (field "elements" (arr nil) end))
      (field "subjectlayer" (obj (field "elements" (arr nil) end)) end))

-- `… or None`
abbrev pub or_none : String → Option String
or_none s = if truthy s then some s else none

abbrev pub new_portal : String → String → String → String → Portal
new_portal slug catalog title description = record {
  slug = slug;
  catalog = catalog;
  description = or_none description;
  portal_config = starter_portal_config title;
  layer_config = starter_layer_config;
  active_snapshot_id = none;
}

-- The slug's form, and that no portal has it.
abbrev pub check_slug : String → Db → Result (Unit {0})
check_slug slug db =
    if not (is_slug slug)
    then err (http 422)
    else elim (find portal_key slug db.portals) [ none ↦ ok tt | some p ↦ err (http 409) ]

unfoldable pub create_portal : String → Fields → Fields → Db → Result (Value × Db)
create_portal ts claims payload db = do
  slug ← text_or "" (get "slug" payload)
  title ← text_or slug (get "title" payload)
  catalog ← text_or slug (get "catalog" payload)
  free ← check_slug slug db
  description ← text_or "" (get "description" payload)
  after ←
      audit ts claims "portal.create" slug
        (field "catalog" (str catalog) (field "title" (str title) end))
        (record db {
          portals = add portal_key (new_portal slug catalog title description) db.portals;
        })
  ok (
    obj (field "slug" (str slug) (field "catalog" (str catalog) (field "title" (str title) end))),
    after,
  )

-- The tables without the portal and the rows that name it.
abbrev pub without_portal : String → Db → Db
without_portal slug db = record db {
  snapshots = keep (λ s. not (s.portal_slug == slug)) db.snapshots;
  portal_roles = keep (λ r. not (r.portal_slug == slug)) db.portal_roles;
  module_roles = keep (λ r. not (r.portal_slug == slug)) db.module_roles;
  portals = delete portal_key slug db.portals;
}

abbrev pub delete_known : String → Fields → String → Db → Result (Value × Db)
delete_known ts claims slug db =
    if leb (length db.portals) 1
    then err (http 409)
    else audit ts claims "portal.delete" slug end (without_portal slug db) >>= λ after.
        ok (obj (field "deleted" (str slug) end), after)

unfoldable pub delete_portal : String → Fields → String → Db → Result (Value × Db)
delete_portal ts claims slug db = elim (find portal_key slug db.portals) [
  | none ↦ err (http 404)
  | some portal ↦ delete_known ts claims slug db
]

-- `key in pc and not isinstance(pc[key], dict)`
abbrev pub is_no_dict : Fields → String → Bool
is_no_dict pc key = elim (get key pc) [ none ↦ false | some v ↦ not (is_dict v) ]

-- `isinstance(m, dict) and "sections" in m and not isinstance(m["sections"], list)`
abbrev pub has_bad_sections : Fields → String → Bool
has_bad_sections pc menu = elim (get menu pc) [
  | some (obj m) ↦ elim (get "sections" m) [ none ↦ false | some v ↦ not (is_list v) ]
  | _ ↦ false
]

-- `((pc.get("mainMenu", {}) or {}).get("title", {}) or {}).get("text")`
unfoldable pub title_text : Fields → Result Value
title_text pc = do
  menu ← get_or (obj pc) "mainMenu" (obj end)
  title ← get_or (or_else menu (obj end)) "title" (obj end)
  get_or (or_else title (obj end)) "text" null

unfoldable pub validate_portal_config : Value → Result (List String)
unfolding title_text
validate_portal_config (obj pc) =
    if not (
      all (λ key. not (is_no_dict pc key))
        ("map" ∷ "mainMenu" ∷ "secondaryMenu" ∷ "tree" ∷ "portalFooter" ∷ []))
    then err (http 422)
    else if not (all (λ menu. not (has_bad_sections pc menu)) ("mainMenu" ∷ "secondaryMenu" ∷ []))
    then err (http 422)
    else (title_text pc >>= λ text. ok (
        if is_true text then [] else "no portal title set (portalConfig.mainMenu.title.text)" ∷ []))
validate_portal_config v = err (http 422)

abbrev pub put_config : Value → Portal → Portal
put_config pc p = record p { portal_config = pc }

-- `payload.get("portal_config")`
abbrev pub config_of : Fields → Value
config_of payload = elim (get "portal_config" payload) [ none ↦ null | some v ↦ v ]

abbrev pub put_known_config : String → Fields → String → Fields → Db → Result (Value × Db)
put_known_config ts claims slug payload db = do
  warnings ← validate_portal_config (config_of payload)
  after ←
      audit ts claims "portal.rawconfig" slug (field "warnings" (int (pos (length warnings))) end)
        (record db { portals = alter portal_key slug (put_config (config_of payload)) db.portals })
  ok (obj (field "ok" (bool true) (field "warnings" (arr (of_list (map str warnings))) end)), after)

unfoldable pub put_portal_config : String → Fields → String → Fields → Db → Result (Value × Db)
put_portal_config ts claims slug payload db = elim (find portal_key slug db.portals) [
  | none ↦ err (http 404)
  | some portal ↦ put_known_config ts claims slug payload db
]

unfoldable pub get_portal_config : String → Db → Result Value
get_portal_config slug db = elim (find portal_key slug db.portals) [
  | none ↦ err (http 404)
  | some portal ↦ ok (obj (field "portal_config" portal.portal_config end))
]
