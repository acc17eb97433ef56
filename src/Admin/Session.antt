-- ===== src/Admin/Session.antt =====
-- `require_admin`, `_validate_admin_access_token` and `_refresh_session` of app/admin.py. The JWT
-- library and the token endpoint are parameters.
pub mod Admits
use text.Mathlib.Text.{starts_with}
use masterportal_admin.Base.{
  ℕ, ◌+◌, String, Bool, true, false, not, ◌==◌, ltb, Option, none, some, List, [], ◌∷◌, Result, ok,
  err, http, key_error, type_error, Error, ◌>>=◌, ◌&&◌, if◌then◌else◌, contains,
}
use masterportal_admin.Base.Text.{truthy}
use masterportal_admin.Json.{Value, Fields}
use masterportal_admin.Db.{Db, AdminSession}
use masterportal_admin.Db.Table.{find, alter}
use masterportal_admin.Auth
use masterportal_admin.Access.{admin_role}

-- What the handler reads of a request. `bearer` is the header `Authorization` behind `Bearer `, if
-- it begins so; `session` and `origin` are empty where the request has none.
pub record AdminRequest : Type 0 where
  pub method : String
  pub bearer : Option String
  pub session : String
  pub origin : String

-- The answer of the token endpoint to a refresh, with status 200.
pub record Refreshed : Type 0 where
  pub access_token : String
  pub refresh_token : Option String
  pub expires_in : Option ℕ

abbrev pub session_key : AdminSession → String
session_key s = s.sid

-- The claims of a token that the JWT library accepts, if they have the admin role.
abbrev pub admin_only : Fields → List String → Result Fields
admin_only claims roles = if contains roles admin_role then ok claims else err (http 403)

module _ (validate : String → Option Fields) (endpoint : String → Option Refreshed) where
  unfoldable pub validate_admin_access_token : String → Result Fields
  validate_admin_access_token token = elim (validate token) [
    | none ↦ err (http 401)
    | some claims ↦ do roles ← Auth.roles claims; admin_only claims roles
  ]

  abbrev pub refreshed : ℕ → Refreshed → AdminSession → AdminSession
  refreshed now tokens s = record s {
    access = tokens.access_token;
    refresh = elim tokens.refresh_token [ none ↦ s.refresh | some r ↦ some r ];
    exp = now + elim tokens.expires_in [ none ↦ 300 | some seconds ↦ seconds ];
  }

  -- The session after a refresh, if there is one.
  unfoldable pub refresh_session : ℕ → AdminSession → Option AdminSession
  refresh_session now s = elim s.refresh [
    | none ↦ none
    | some r ↦
        if truthy r
        then elim (endpoint r) [ none ↦ none | some tokens ↦ some (refreshed now tokens s) ]
        else none
  ]

  -- The session to use at the time `now`: refreshed if it ends within 30 seconds.
  unfoldable pub live_session : ℕ → AdminSession → Option AdminSession
  live_session now s = if ltb s.exp (now + 30) then refresh_session now s else some s

  abbrev pub check_origin : List String → AdminRequest → AdminSession → Result Fields
  check_origin origins request s =
      if not (request.method == "GET") && not (contains origins request.origin)
      then err (http 403)
      else validate_admin_access_token s.access

  abbrev pub with_session :
      List String → AdminRequest → Db → Option AdminSession → Result Fields × Db
  with_session origins request db none = (err (http 401), db)
  with_session origins request db (some s) = (
    check_origin origins request s,
    record db { sessions = alter session_key s.sid (λ old. s) db.sessions },
  )

  -- The claims, and the tables: a refresh is committed before the checks that follow it.
  unfoldable pub require_admin : List String → ℕ → AdminRequest → Db → Result Fields × Db
  require_admin origins now request db = elim request.bearer [
    | some token ↦ (validate_admin_access_token token, db)
    | none ↦ elim (find session_key request.session db.sessions) [
      | none ↦ (err (http 401), db)
      | some s ↦ with_session origins request db (live_session now s)
    ]
  ]
