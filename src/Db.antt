-- ===== src/Db.antt =====
-- app/db.py: the tables, and what the program asks of a session.
--
-- A table is the list of its rows. A request's session is its view of the tables; a request that
-- raises before its `commit` leaves the tables as they were, so such a handler returns no tables.
pub mod Table
pub mod Query
use masterportal_admin.Base.{ℕ, String, Bool, Option, List}
use masterportal_admin.Base.Text.{concat}
use masterportal_admin.Base.{[], ◌∷◌}
use masterportal_admin.Json.{Value, Fields}

-- The configuration that a snapshot freezes, and that the endpoints render.
pub record SourceService : Type 0 where
  pub key : String
  pub external_id : String
  pub attrs : Fields
  pub is_public : Bool

pub record Source : Type 0 where
  pub portal_config : Value
  pub layer_config : Value
  pub services : List SourceService
  pub styles : List Value
  pub rest_services : List Value

pub record Service : Type 0 where
  pub key : String
  pub catalog : String
  pub external_id : String
  pub position : ℕ
  pub attrs : Fields
  pub is_public : Bool
  pub upstream_auth_env : Option String
  pub allow_transactions : Bool

pub record RestService : Type 0 where
  pub key : String
  pub catalog : String
  pub position : ℕ
  pub attrs : Value

pub record Style : Type 0 where
  pub key : String
  pub catalog : String
  pub position : ℕ
  pub attrs : Fields

pub record Portal : Type 0 where
  pub slug : String
  pub catalog : String
  pub description : Option String
  pub portal_config : Value
  pub layer_config : Value
  pub active_snapshot_id : Option ℕ

pub record Snapshot : Type 0 where
  pub id : ℕ
  pub portal_slug : String
  pub version : ℕ
  pub created_ts : String
  pub created_by : Value
  pub content : Source

pub record ServiceRole : Type 0 where
  pub service_key : String
  pub role : String

pub record PortalRole : Type 0 where
  pub portal_slug : String
  pub role : String

pub record ModuleRole : Type 0 where
  pub portal_slug : String
  pub module_type : String
  pub role : String

pub record AuditLog : Type 0 where
  pub ts : String
  pub actor : Value
  pub action : String
  pub target : String
  pub detail : Fields

pub record AdminSession : Type 0 where
  pub sid : String
  pub access : String
  pub refresh : Option String
  pub exp : ℕ

pub record AdminPendingLogin : Type 0 where
  pub state : String
  pub verifier : String
  pub created : ℕ

-- The tables. `next_snapshot` is the sequence behind `Snapshot.id`.
pub record Db : Type 0 where
  pub services : List Service
  pub rest_services : List RestService
  pub styles : List Style
  pub portals : List Portal
  pub snapshots : List Snapshot
  pub next_snapshot : ℕ
  pub service_roles : List ServiceRole
  pub portal_roles : List PortalRole
  pub module_roles : List ModuleRole
  pub audit_log : List AuditLog
  pub sessions : List AdminSession
  pub pending_logins : List AdminPendingLogin

-- `<catalog>:<external_id>`
unfoldable pub scoped_key : String → String → String
scoped_key catalog external_id = concat (catalog ∷ ":" ∷ external_id ∷ [])
