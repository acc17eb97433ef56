-- ===== src/Admin/Listings.antt =====
-- The endpoints of app/admin.py that only read: `me`, `portals`, `services`, `grants` and `audit`.
-- `lower` is Python's `str.lower`, a parameter.
pub mod Page
mod Tests
use masterportal_admin.Base.{
  ℕ, zero, suc, ◌+◌, ◌-◌, String, Bool, true, false, ◌==◌, ◌&&◌, ◌||◌, not, ltb, Option, none, some,
  List, [], ◌∷◌, ◌++◌, length, keep, map, contains, Result, ok, err, attribute_error, ◌>>=◌,
  if◌then◌else◌, keep_result, map_result,
}
use masterportal_admin.Base.Int.{ℤ, pos, negsuc}
use masterportal_admin.Base.Text.{truthy, has_text}
use masterportal_admin.Auth
use masterportal_admin.Json.{Value, null, bool, int, str, arr, obj, Fields, end, field, of_list}
use masterportal_admin.Json.Object.{get, get_or, or_else, is_dict}
use masterportal_admin.Json.Text.{to_text}
use masterportal_admin.Json.Update.{value_or}
use masterportal_admin.Db.{Db, Service, Portal, ServiceRole, ModuleRole, PortalRole, AuditLog}
use masterportal_admin.Db.Table.{find}
use masterportal_admin.Db.Query.{order_by}
use masterportal_admin.Admin.{portal_key, actor}
use masterportal_admin.Admin.Settings.{sorted, texts}
use masterportal_admin.Admin.Styles.{value_or_null}
use masterportal_admin.Admin.Tree.{collect_ids}

-- A set of texts, each once.
unfoldable pub distinct : List String → List String
distinct [] = []
distinct (s ∷ ts) = let rest = distinct ts in if contains rest s then rest else s ∷ rest

unfoldable pub me : Fields → Result Value
unfolding distinct
me claims = do
  name ← actor claims
  roles ← Auth.roles claims
  ok (obj (field "username" name (field "roles" (texts (sorted (distinct roles))) end)))

-- `_portal_title`
unfoldable pub portal_title : Portal → Result Value
portal_title p = do
  menu ← get_or p.portal_config "mainMenu" (obj end)
  title ← get_or (or_else menu (obj end)) "title" (obj end)
  text ← get_or (or_else title (obj end)) "text" (str "")
  ok (or_else text (str p.slug))

abbrev pub text_or_null : Option String → Value
text_or_null none = null
text_or_null (some s) = str s

abbrev pub nat : ℕ → Value
nat n = int (pos n)

abbrev pub portal_row : Db → Portal → Result Value
portal_row db p = do
  title ← portal_title p
  ok (
      obj (
        field "slug" (str p.slug) (
          field "catalog" (str p.catalog) (
            field "title" title (
              field "description" (text_or_null p.description) (
                field "services"
                  (nat (length (keep (λ (s : Service). s.catalog == p.catalog) db.services)))
                  end))))))

unfoldable pub portals : Db → Result Value
portals db = do rows ← map_result (portal_row db) db.portals; ok (arr (of_list rows))

-- `_service_row`, with the entry `in_portal` that `services` adds.
abbrev pub service_row : List String → Service → Value
service_row used s = obj (
    field "key" (str s.key) (
      field "catalog" (str s.catalog) (
        field "id" (str s.external_id) (
          field "name" (value_or_null (get "name" s.attrs)) (
            field "typ" (value_or_null (get "typ" s.attrs)) (
              field "url" (value_or_null (get "url" s.attrs)) (
                field "is_public" (bool s.is_public) (
                  field "allow_transactions" (bool s.allow_transactions) (
                    field "upstream_auth_env" (text_or_null s.upstream_auth_env)
                      (field "in_portal" (bool (contains used s.external_id)) end))))))))))

-- Where an index of a slice stands in a list of `n`.
abbrev pub place : ℕ → ℤ → ℕ
place n (pos i) = if ltb n i then n else i
place n (negsuc i) = n - (i + 1)

abbrev pub drop {ℓ} : {A : Type ℓ} → ℕ → List A → List A
drop zero xs = xs
drop (suc n) [] = []
drop (suc n) (x ∷ xs) = drop n xs

abbrev pub take {ℓ} : {A : Type ℓ} → ℕ → List A → List A
take zero xs = []
take (suc n) [] = []
take (suc n) (x ∷ xs) = x ∷ take n xs

-- `rows[a:b]`
unfoldable pub slice {ℓ} : {A : Type ℓ} → ℤ → ℤ → List A → List A
slice a b rows =
    take (place (length rows) b - place (length rows) a) (drop (place (length rows) a) rows)

-- `m - n`, as an integer.
abbrev pub difference : ℕ → ℕ → ℤ
difference m n = if ltb m n then negsuc (n - m - 1) else pos (m - n)

-- `a + b`
abbrev pub sum_of : ℤ → ℤ → ℤ
sum_of (pos m) (pos n) = pos (m + n)
sum_of (pos m) (negsuc n) = difference m (suc n)
sum_of (negsuc m) (pos n) = difference n (suc m)
sum_of (negsuc m) (negsuc n) = negsuc (suc (m + n))

-- `min(limit, n)`
abbrev pub at_most : ℕ → ℤ → ℤ
at_most n (pos limit) = if ltb n limit then pos n else pos limit
at_most n (negsuc limit) = negsuc limit

-- `rows[offset:offset + min(limit, 200)]`
abbrev pub page : ℤ → ℤ → List Service → List Service
page offset limit rows = slice offset (sum_of offset (at_most 200 limit)) rows

-- The loop over the groups of a portal's tree: `_collect_ids(group.get("elements"), used)`.
unfoldable pub used_in : Fields → List String → Result (List String)
used_in end used = ok used
used_in (field name (obj group) groups) used = do
  more ← collect_ids (value_or_null (get "elements" group)) used
  used_in groups more
used_in (field name v groups) used = used_in groups used

-- `portal.layer_config.values()`
abbrev pub used_by : Value → Result (List String)
used_by (obj groups) = used_in groups []
used_by v = err attribute_error

-- The set `used`, for the portal that the query names.
unfoldable pub used_ids : Option String → Db → Result (List String)
used_ids none db = ok []
used_ids (some slug) db =
    if truthy slug
    then elim (find portal_key slug db.portals) [ none ↦ ok [] | some p ↦ used_by p.layer_config ]
    else ok []

-- What a listing of services asks for.
pub record ServiceQuery : Type 0 where
  pub catalog : Option String
  pub q : Option String
  pub offset : ℤ
  pub limit : ℤ
  pub portal : Option String
  pub in_portal : Bool

-- A parameter that is given and not empty.
abbrev pub given : Option String → Bool
given none = false
given (some s) = truthy s

abbrev pub or_empty : Option String → String
or_empty none = ""
or_empty (some s) = s

module _ (lower : String → String) where
  -- `needle in s.external_id.lower() or needle in str(s.attrs.get("name", "")).lower()`
  abbrev pub has_needle : String → Service → Bool
  has_needle q s =
      has_text (lower q) (lower s.external_id)
      || has_text (lower q) (lower (to_text (value_or (str "") (get "name" s.attrs))))

  -- The rows that pass the filters.
  abbrev pub chosen : ServiceQuery → List String → List Service → List Service
  chosen query used services =
      keep (λ (s : Service). not query.in_portal || contains used s.external_id)
        (keep (λ (s : Service). not (given query.q) || has_needle (or_empty query.q) s)
          (order_by (λ (s : Service). s.position)
            (keep
              (λ (s : Service). not (given query.catalog) || s.catalog == or_empty query.catalog)
              services)))

  unfoldable pub services : ServiceQuery → Db → Result Value
  unfolding slice used_ids
  services query db = do
    used ← used_ids query.portal db
    let rows = chosen query used db.services
    ok (
        obj (
          field "total" (nat (length rows)) (
            field "used_in_portal" (if given query.portal then nat (length used) else null) (
              field "items"
                (arr (of_list (map (service_row used) (page query.offset query.limit rows))))
                end))))

unfoldable pub grants : Db → Value
grants db = obj (
    field "services"
      (arr (
        of_list (
          map
            (λ (r : ServiceRole).
              obj (field "key" (str r.service_key) (field "role" (str r.role) end)))
            db.service_roles)))
      (field "modules"
        (arr (
          of_list (
            map
              (λ (r : ModuleRole). obj (
                field "portal" (str r.portal_slug)
                  (field "module" (str r.module_type) (field "role" (str r.role) end))))
              db.module_roles)))
        (field "portals"
          (arr (
            of_list (
              map
                (λ (r : PortalRole).
                  obj (field "portal" (str r.portal_slug) (field "role" (str r.role) end)))
                db.portal_roles)))
          end)))

abbrev pub reverse_onto {ℓ} : {A : Type ℓ} → List A → List A → List A
reverse_onto [] out = out
reverse_onto (x ∷ xs) out = reverse_onto xs (x ∷ out)

abbrev pub audit_row : AuditLog → Value
audit_row r = obj (
    field "ts" (str r.ts) (
      field "actor" r.actor (
        field "action" (str r.action)
          (field "target" (str r.target) (field "detail" (obj r.detail) end)))))

-- The newest rows, for a limit that is not negative; a database refuses a negative one.
unfoldable pub audit_rows : ℕ → Db → Value
audit_rows limit db = arr (
    of_list
      (map audit_row (take (if ltb 500 limit then 500 else limit) (reverse_onto db.audit_log []))))
