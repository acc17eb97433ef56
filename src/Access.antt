-- ===== src/Access.antt =====
-- app/access.py: who may use what. The filters of the served documents are in the children.
pub mod Tree
pub mod Menu
mod Tests
use masterportal_admin.Base.{
  String, Bool, true, false, ◌||◌, Option, none, some, List, [], Result, ok, ◌>>=◌, contains,
  intersects,
}
use masterportal_admin.Json.{Fields}
use masterportal_admin.Auth

abbrev pub admin_role : String
admin_role = "admin"

-- `none` is an anonymous caller.
unfoldable pub user_roles : Option Fields → Result (Option (List String))
user_roles none = ok none
user_roles (some user) = do r ← Auth.roles user; ok (some r)

unfoldable pub service_allowed : Bool → List String → Option (List String) → Bool
service_allowed true grants uroles = true
service_allowed false grants none = false
service_allowed false grants (some roles) = contains roles admin_role || intersects grants roles

-- An empty requirement is open to all.
unfoldable pub roles_satisfy : List String → Option (List String) → Bool
roles_satisfy [] uroles = true
roles_satisfy required none = false
roles_satisfy required (some roles) = contains roles admin_role || intersects required roles
