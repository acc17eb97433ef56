-- ===== src/Admin/StyleList.antt =====
-- `list_styles` of app/admin.py. `lower` is Python's `str.lower`, a parameter.
use masterportal_admin.Base.{
  ℕ, String, Bool, false, ◌==◌, ◌&&◌, not, Option, none, some, List, [], ◌∷◌, length, keep, ◌++◌,
  Result, ok, err, attribute_error, type_error, key_error, ◌>>=◌, if◌then◌else◌,
}
use masterportal_admin.Base.Int.{pos}
use masterportal_admin.Base.Text.{truthy, has_text}
use masterportal_admin.Json.{Value, null, int, str, arr, obj, end, field, to_list, of_list}
use masterportal_admin.Json.Object.{get, get_or, is_true}
use masterportal_admin.Json.Text.{to_text}
use masterportal_admin.Json.Update.{value_or}
use masterportal_admin.Db.{Db, Service, Style}
use masterportal_admin.Db.Query.{order_by}
use masterportal_admin.Admin.Styles.{sid}

-- `ref is not None` and `str(ref) == style_id`, for a service's style.
abbrev pub uses_style : String → Option Value → Bool
uses_style style_id none = false
uses_style style_id (some null) = false
uses_style style_id (some ref) = to_text ref == style_id

-- `usage.get(sid, 0)`: the keys are texts, and a list or a dict cannot be looked up.
unfoldable pub usage_of : Db → String → Value → Result ℕ
usage_of db catalog (str style_id) = ok (
    length (
      keep (λ (s : Service). s.catalog == catalog && uses_style style_id (get "styleId" s.attrs))
        db.services))
usage_of db catalog (arr vs) = err type_error
usage_of db catalog (obj d) = err type_error
usage_of db catalog v = ok 0

-- `len(rules)` and `rules[0].get("style", {}) if rules else {}`, for `rules = … or []`.
unfoldable pub first_style : List Value → Result (ℕ × Value)
first_style [] = ok (0, obj end)
first_style (rule ∷ rules) = do
  style ← get_or rule "style" (obj end)
  ok (length (rule ∷ rules), style)

abbrev pub rules_listed : Value → Result (ℕ × Value)
rules_listed (arr vs) = first_style (to_list vs)
rules_listed (obj d) = if is_true (obj d) then err key_error else ok (0, obj end)
rules_listed (str s) = if truthy s then err attribute_error else ok (0, obj end)
rules_listed v = if is_true v then err type_error else ok (0, obj end)

-- `q and q.lower() not in sid.lower()`
abbrev pub is_skipped : (String → String) → Option String → Value → Result Bool
is_skipped lower none v = ok false
is_skipped lower (some q) (str s) = ok (truthy q && not (has_text (lower q) (lower s)))
is_skipped lower (some q) v = if truthy q then err attribute_error else ok false

abbrev pub style_item : Db → String → Style → Result Value
style_item db catalog r = do
  listed ← rules_listed (value_or null (get "rules" r.attrs))
  usage ← usage_of db catalog (sid r)
  ok (
      obj (
        field "key" (str r.key) (
          field "styleId" (sid r) (
            field "rules" (int (pos (listed.0)))
              (field "firstStyle" listed.1 (field "usage" (int (pos usage)) end))))))

-- The loop over the styles.
unfoldable pub style_items :
    (String → String) → Db → String → Option String → List Style → Result (List Value)
style_items lower db catalog q [] = ok []
style_items lower db catalog q (r ∷ rows) = do
  skipped ← is_skipped lower q (sid r)
  own ← (if skipped then ok [] else (style_item db catalog r >>= λ item. ok (item ∷ [])))
  rest ← style_items lower db catalog q rows
  ok (own ++ rest)

unfoldable pub list_styles : (String → String) → String → Option String → Db → Result Value
unfolding style_items usage_of
list_styles lower catalog q db = do
  items ←
      style_items lower db catalog q (
        order_by (λ (s : Style). s.position) (keep (λ (s : Style). s.catalog == catalog) db.styles))
  ok (obj (field "total" (int (pos (length items))) (field "items" (arr (of_list items)) end)))
