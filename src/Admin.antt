-- ===== src/Admin.antt =====
-- app/admin.py: the handlers behind /api/admin. A handler gets the claims that `require_admin`
-- returned, and returns its response and the tables after its commit; one that raises returns no
-- tables.
pub mod Audit
pub mod Snapshots
pub mod Grants
pub mod Tree
pub mod Services
pub mod Portals
pub mod Styles
pub mod Settings
pub mod Capabilities
pub mod Listings
pub mod StyleList
pub mod Login
pub mod Session
pub mod Edits
pub mod Tests
use masterportal_admin.Base.{
  String, Option, none, some, [], ◌∷◌, ◌++◌, Result, ok, err, key_error, ◌>>=◌, if◌then◌else◌,
}
use masterportal_admin.Json.{Value, Fields}
use masterportal_admin.Json.Object.{get, is_true}
use masterportal_admin.Db.{Db, Portal, AuditLog}

-- `db.get(Portal, slug)` reads by this key.
abbrev pub portal_key : Portal → String
portal_key p = p.slug

-- `claims[k]`
abbrev pub item : String → Fields → Result Value
item k d = elim (get k d) [ none ↦ err key_error | some v ↦ ok v ]

-- `claims.get("preferred_username") or claims["sub"]`
unfoldable pub actor : Fields → Result Value
actor claims = elim (get "preferred_username" claims) [
  | none ↦ item "sub" claims
  | some v ↦ if is_true v then ok v else item "sub" claims
]

-- `_audit` at the time `ts`.
unfoldable pub audit : String → Fields → String → String → Fields → Db → Result Db
audit ts claims action target detail db = do
  who ← actor claims
  ok record db {
    audit_log =
        db.audit_log
        ++ record { ts = ts; actor = who; action = action; target = target; detail = detail } ∷ [];
  }
