-- ===== src/Proxy/Authorize.antt =====
-- `_load_service` of app/proxy.py: the decision at the boundary.
pub mod Agreement
use masterportal_admin.Base.{
  String, Bool, true, false, if◌then◌else◌, Option, none, some, List, Result, ok, err, http, ◌>>=◌,
}
use masterportal_admin.Json.{Fields}
use masterportal_admin.Db.{Service, Db}
use masterportal_admin.Db.Table.{find}
use masterportal_admin.Access.{user_roles, service_allowed}
use masterportal_admin.Source.Grants.Exact.{roles_of}

-- 401 for an anonymous caller, 403 for one without a granted role.
abbrev pub refuse : Option (List String) → Result Service
refuse none = err (http 401)
refuse (some _) = err (http 403)

abbrev pub authorize : Service → List String → Option (List String) → Result Service
authorize service grants uroles =
    if service_allowed false grants uroles then ok service else refuse uroles

abbrev pub service_key : Service → String
service_key s = s.key

-- `if not service.is_public: …; return service`
abbrev pub admit : Bool → Service → List String → Option Fields → Result Service
admit true service grants user = ok service
admit false service grants user = do uroles ← user_roles user; authorize service grants uroles

unfoldable pub load_service : Db → String → Option Fields → Result Service
load_service db key user = elim (find service_key key db.services) [
  | none ↦ err (http 404)
  | some service ↦ admit service.is_public service (roles_of key db.service_roles) user
]
