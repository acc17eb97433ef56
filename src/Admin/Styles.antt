-- ===== src/Admin/Styles.antt =====
-- The style editor of app/admin.py.
use masterportal_admin.Base.{
  ℕ, String, Bool, true, false, not, ◌==◌, ◌&&◌, ◌||◌, Option, none, some, List, length, keep, map,
  all, Result, ok, err, http, ◌>>=◌, if◌then◌else◌, eqb,
}
use Prim.Native.Char.{code}
use masterportal_admin.Base.Int.{pos}
use masterportal_admin.Base.Text.{truthy}
use masterportal_admin.Json.{
  Value, null, bool, int, float, str, arr, obj, nil, cons, Fields, end, field, to_list, of_list,
}
use masterportal_admin.Json.Object.{get, set, is_true, is_dict}
use masterportal_admin.Json.Text.{to_text}
use masterportal_admin.Db.{Db, Service, Style, scoped_key}
use masterportal_admin.Db.Table.{find, add, alter, delete}
use masterportal_admin.Admin.{audit}
use masterportal_admin.Admin.Portals.{text_or}

abbrev pub style_key : Style → String
style_key s = s.key

abbrev pub value_or_null : Option Value → Value
value_or_null none = null
value_or_null (some v) = v

unfoldable pub style_template : String → Value
style_template style_id =
    let style = obj (
      field "type" (str "circle") (
        field "circleRadius" (int (pos 8)) (
          field "circleFillColor"
            (arr (
              cons (int (pos 0))
                (cons (int (pos 153)) (cons (int (pos 255)) (cons (float "0.8") nil)))))
            (field "circleStrokeColor"
              (arr (
                cons (int (pos 0))
                  (cons (int (pos 0)) (cons (int (pos 0)) (cons (int (pos 1)) nil)))))
              (field "circleStrokeWidth" (int (pos 1)) end))))) in
    obj (
      field "styleId" (str style_id)
        (field "rules" (arr (cons (obj (field "style" style end)) nil)) end))

-- `isinstance(rule, dict) and isinstance(rule.get("style"), dict)`
abbrev pub is_rule : Value → Bool
is_rule (obj d) = elim (get "style" d) [ none ↦ false | some v ↦ is_dict v ]
is_rule v = false

abbrev pub has_rules : Fields → Bool
has_rules d = elim (get "rules" d) [ some (arr vs) ↦ all is_rule (to_list vs) | _ ↦ false ]

unfoldable pub validate_style : Value → Value → Result Fields
validate_style (obj d) style_id =
    if has_rules d then ok (set "styleId" style_id d) else err (http 422)
validate_style v style_id = err (http 422)

-- `str(s.attrs.get("styleId")) == style_id`
abbrev pub refers_to : Value → Service → Bool
refers_to (str style_id) s = to_text (value_or_null (get "styleId" s.attrs)) == style_id
refers_to v s = false

unfoldable pub style_usage : Db → String → Value → List String
style_usage db catalog style_id =
    map (λ (s : Service). s.external_id)
      (keep (λ s. s.catalog == catalog && refers_to style_id s) db.services)

-- `key.split(":", 1)[-1]`
unfoldable pub after_colon : String → Option String
after_colon String.[] = none
after_colon (String.◌∷◌ c s) =
    let rest = after_colon s in if eqb (code c) b':' then some s else rest

unfoldable pub sid : Style → Value
unfolding after_colon
sid style =
    let own = str (elim (after_colon style.key) [ none ↦ style.key | some s ↦ s ]) in
    elim (get "styleId" style.attrs) [ none ↦ own | some v ↦ if is_true v then v else own ]

-- `not catalog or not style_id`, and that the key is free.
abbrev pub check_new : String → String → Db → Result (Unit {0})
check_new catalog style_id db =
    if not (truthy catalog) || not (truthy style_id)
    then err (http 422)
    else elim (find style_key (scoped_key catalog style_id) db.styles) [
      | none ↦ ok tt
      | some s ↦ err (http 409)
    ]

-- `payload.get("attrs") or _style_template(style_id)`
abbrev pub attrs_or_template : String → Fields → Value
attrs_or_template style_id payload = elim (get "attrs" payload) [
  | none ↦ style_template style_id
  | some v ↦ if is_true v then v else style_template style_id
]

unfoldable pub create_style : String → Fields → Fields → Db → Result (Value × Db)
create_style ts claims payload db = do
  catalog ← text_or "" (get "catalog" payload)
  style_id ← text_or "" (get "styleId" payload)
  free ← check_new catalog style_id db
  attrs ← validate_style (attrs_or_template style_id payload) (str style_id)
  let key = scoped_key catalog style_id
  let position = length (keep (λ (s : Style). s.catalog == catalog) db.styles)
  let style : Style = record { key = key; catalog = catalog; position = position; attrs = attrs }
  after ←
      audit ts claims "style.create" key (field "styleId" (str style_id) end)
        (record db { styles = add style_key style db.styles })
  ok (obj (field "key" (str key) (field "styleId" (str style_id) end)), after)

abbrev pub put_attrs : Fields → Style → Style
put_attrs attrs s = record s { attrs = attrs }

-- `len(style.attrs["rules"])`
abbrev pub rules_of : Fields → ℕ
rules_of d = elim (get "rules" d) [ some (arr vs) ↦ length (to_list vs) | _ ↦ 0 ]

abbrev pub put_known_style : String → Fields → String → Fields → Db → Style → Result (Value × Db)
put_known_style ts claims key payload db style = do
  attrs ← validate_style (value_or_null (get "attrs" payload)) (sid style)
  let changed = put_attrs attrs style
  after ←
      audit ts claims "style.update" key (field "rules" (int (pos (rules_of attrs))) end)
        (record db { styles = alter style_key key (put_attrs attrs) db.styles })
  ok (
    obj (
        field "ok" (bool true) (
          field "usage" (arr (of_list (map str (style_usage db style.catalog (sid changed)))))
            end)),
    after,
  )

unfoldable pub put_style : String → Fields → String → Fields → Db → Result (Value × Db)
put_style ts claims key payload db = elim (find style_key key db.styles) [
  | none ↦ err (http 404)
  | some style ↦ put_known_style ts claims key payload db style
]

abbrev pub delete_known_style : String → Fields → String → Db → Style → Result (Value × Db)
delete_known_style ts claims key db style = do
  let used_by = arr (of_list (map str (style_usage db style.catalog (sid style))))
  after ←
      audit ts claims "style.delete" key (field "was_used_by" used_by end)
        (record db { styles = delete style_key key db.styles })
  ok (obj (field "deleted" (str key) (field "was_used_by" used_by end)), after)

unfoldable pub delete_style : String → Fields → String → Db → Result (Value × Db)
delete_style ts claims key db = elim (find style_key key db.styles) [
  | none ↦ err (http 404)
  | some style ↦ delete_known_style ts claims key db style
]

-- `get_style`
unfoldable pub get_style : String → Db → Result Value
get_style key db = elim (find style_key key db.styles) [
  | none ↦ err (http 404)
  | some style ↦ ok (
      obj (
        field "key" (str key) (
          field "catalog" (str style.catalog) (
            field "styleId" (sid style) (
              field "attrs" (obj style.attrs) (
                field "usage" (arr (of_list (map str (style_usage db style.catalog (sid style)))))
                  end))))))
]
