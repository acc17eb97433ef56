-- ===== src/Admin/Grants.antt =====
-- `add_grant` and `delete_grant` of app/admin.py. What the database makes of a JSON value in a column
-- of texts is the parameter `column`.
use masterportal_admin.Base.{
  String, Bool, true, ◌==◌, ◌&&◌, not, Option, none, some, List, [], ◌∷◌, ◌++◌, Result, ok, err,
  http, key_error, ◌>>=◌, if◌then◌else◌, any, keep,
}
use masterportal_admin.Base.Text.{concat}
use masterportal_admin.Json.{Value, bool, obj, Fields, end, field}
use masterportal_admin.Json.Object.{get, is_true}
use masterportal_admin.Json.Text.{to_text}
use masterportal_admin.Db.{Db, Service, ServiceRole, PortalRole, ModuleRole, scoped_key}
use masterportal_admin.Db.Table.{find}
use masterportal_admin.Proxy.Authorize.{service_key}
use masterportal_admin.Admin.{audit, item}

-- A row of one of the three tables of grants.
pub data Grant : Type 0 where
  service_grant : String → String → Grant
  module_grant : String → String → String → Grant
  portal_grant : String → String → Grant

-- `except KeyError: raise HTTPException(422, …)`
abbrev or_unprocessable : Result Grant → Result Grant
or_unprocessable (err key_error) = err (http 422)
or_unprocessable r = r

-- `db.merge(row)`, for a row that is its own primary key.
abbrev pub merge_row : {R : Type 0} → (R → Bool) → R → List R → List R
merge_row same r rows = if any same rows then rows else rows ++ r ∷ []

abbrev pub is_service_row : String → String → ServiceRole → Bool
is_service_row key role r = r.service_key == key && r.role == role

abbrev pub is_module_row : String → String → String → ModuleRole → Bool
is_module_row slug type role r = r.portal_slug == slug && r.module_type == type && r.role == role

abbrev pub is_portal_row : String → String → PortalRole → Bool
is_portal_row slug role r = r.portal_slug == slug && r.role == role

unfoldable pub put_grant : Grant → Db → Db
put_grant (service_grant key role) db = record db {
  service_roles =
      merge_row (is_service_row key role) (record { service_key = key; role = role })
        db.service_roles;
}
put_grant (module_grant slug type role) db = record db {
  module_roles =
      merge_row (is_module_row slug type role)
        (record { portal_slug = slug; module_type = type; role = role }) db.module_roles;
}
put_grant (portal_grant slug role) db = record db {
  portal_roles =
      merge_row (is_portal_row slug role) (record { portal_slug = slug; role = role })
        db.portal_roles;
}

-- `db.get(type(row), pk) is not None`
unfoldable pub has_grant : Grant → Db → Bool
has_grant (service_grant key role) db = any (is_service_row key role) db.service_roles
has_grant (module_grant slug type role) db = any (is_module_row slug type role) db.module_roles
has_grant (portal_grant slug role) db = any (is_portal_row slug role) db.portal_roles

-- `db.delete(row)`
unfoldable pub drop_grant : Grant → Db → Db
drop_grant (service_grant key role) db = record db {
  service_roles = keep (λ r. not (is_service_row key role r)) db.service_roles;
}
drop_grant (module_grant slug type role) db = record db {
  module_roles = keep (λ r. not (is_module_row slug type role r)) db.module_roles;
}
drop_grant (portal_grant slug role) db = record db {
  portal_roles = keep (λ r. not (is_portal_row slug role r)) db.portal_roles;
}

module _ (column : Value → Result String) where
  abbrev column_item : String → Fields → Result String
  column_item k p = do v ← item k p; column v

  -- `scoped_key(p["catalog"], p["id"])`
  abbrev scoped_item : Fields → Result String
  scoped_item p = do
    catalog ← item "catalog" p
    id ← item "id" p
    ok (scoped_key (to_text catalog) (to_text id))

  -- `p.get("key") or scoped_key(p["catalog"], p["id"])`
  unfoldable pub key_of : Fields → Result String
  key_of p = elim (get "key" p) [
    | none ↦ scoped_item p
    | some v ↦ if is_true v then column v else scoped_item p
  ]

  abbrev service_row : String → Fields → Option Service → Result Grant
  service_row key p none = err (http 404)
  service_row key p (some service) = do role ← column_item "role" p; ok (service_grant key role)

  abbrev service_grant_of : Fields → Db → Result Grant
  service_grant_of p db = do key ← key_of p; service_row key p (find service_key key db.services)

  abbrev module_grant_of : Fields → Result Grant
  module_grant_of p = do
    slug ← column_item "portal" p
    type ← column_item "module" p
    role ← column_item "role" p
    ok (module_grant slug type role)

  abbrev portal_grant_of : Fields → Result Grant
  portal_grant_of p = do
    slug ← column_item "portal" p
    role ← column_item "role" p
    ok (portal_grant slug role)

  unfoldable pub grant_row : String → Fields → Db → Result Grant
  grant_row kind p db = or_unprocessable (
      if kind == "service"
      then service_grant_of p db
      else if kind == "module"
      then module_grant_of p
      else if kind == "portal"
      then portal_grant_of p
      else err (http 404))

  abbrev answer : Value
  answer = obj (field "ok" (bool true) end)

  unfoldable pub add_grant : String → Fields → String → Fields → Db → Result (Value × Db)
  add_grant ts claims kind payload db = do
    grant ← grant_row kind payload db
    after ←
        audit ts claims (concat ("grant." ∷ kind ∷ ".add" ∷ [])) (to_text (obj payload)) payload
          (put_grant grant db)
    ok (answer, after)

  unfoldable pub delete_grant : String → Fields → String → Fields → Db → Result (Value × Db)
  delete_grant ts claims kind payload db = do
    grant ← grant_row kind payload db
    after ←
        (if has_grant grant db
          then audit ts claims (concat ("grant." ∷ kind ∷ ".delete" ∷ [])) (to_text (obj payload))
              payload (drop_grant grant db)
          else err (http 404))
    ok (answer, after)
