-- ===== src/Admin/Login.antt =====
-- The login of an administrator in app/admin.py: `admin_login`, `admin_callback` and `admin_logout`.
--
-- The random texts and the clock are arguments; the digest of a verifier and the token endpoint are
-- parameters. `admin_callback` commits the use of the state before it calls the token endpoint, so it
-- returns its answer and the tables apart.
pub mod Once
pub mod Admits
mod Tests
use masterportal_admin.Base.{
  ℕ, ◌+◌, String, Bool, true, false, not, ◌==◌, ◌&&◌, ltb, Option, none, some, List, [], ◌∷◌, ◌++◌,
  keep, Result, ok, err, http, Error, key_error, type_error, ◌>>=◌, if◌then◌else◌,
}
use Prim.Native.Char.{code}
use masterportal_admin.Base.Int.{ℤ, pos, negsuc}
use masterportal_admin.Base.Text.{truthy}
use masterportal_admin.Json.{Value, int, Fields}
use masterportal_admin.Json.Object.{get}
use masterportal_admin.Db.{Db, AdminSession, AdminPendingLogin}
use masterportal_admin.Db.Table.{find, add, delete}
use masterportal_admin.Admin.{item}
use masterportal_admin.Admin.Session.{Refreshed, session_key, validate_admin_access_token}

abbrev pub pending_key : AdminPendingLogin → String
pending_key p = p.state

-- The redirect to the identity provider: the state, which the cookie has too, the challenge of the
-- verifier, and whether it asks for a new prompt.
pub record LoginRedirect : Type 0 where
  pub state : String
  pub challenge : String
  pub fresh_prompt : Bool

-- `prompt == "login"`
abbrev pub wants_prompt : Option String → Bool
wants_prompt none = false
wants_prompt (some p) = p == "login"

-- `created < now - 600`
abbrev pub is_old : ℕ → AdminPendingLogin → Bool
is_old now p = ltb (p.created + 600) now

unfoldable pub admin_login :
    (String → String) → String → String → ℕ → Option String → Db → LoginRedirect × Db
admin_login challenge_of state verifier now prompt db = (
  record { state = state; challenge = challenge_of verifier; fresh_prompt = wants_prompt prompt },
  record db {
    pending_logins =
        add pending_key (record { state = state; verifier = verifier; created = now })
          (keep (λ p. not (is_old now p)) db.pending_logins);
  },
)

-- The tokens of the endpoint's answer, with status 200.
pub record Tokens : Type 0 where
  pub access_token : Option String
  pub refresh_token : Option String

-- A redirect with the new session's id, or the page that refuses.
pub data Callback : Type 0 where
  logged_in : String → Callback
  denied : Callback

-- `claims["exp"]`, for a claim that is a natural number.
abbrev pub expiry : Fields → Result ℕ
expiry claims = elim (get "exp" claims) [
  | none ↦ err key_error
  | some (int (pos n)) ↦ ok n
  | some v ↦ err type_error
]

-- `exp < now - SESSION_GC_GRACE`
abbrev pub is_gone : ℕ → AdminSession → Bool
is_gone now s = ltb (s.exp + 86400) now

abbrev pub add_session : String → Tokens → String → ℕ → ℕ → Db → Db
add_session sid tokens access exp now db = record db {
  sessions =
      add session_key
        (record { sid = sid; access = access; refresh = tokens.refresh_token; exp = exp })
        (keep (λ s. not (is_gone now s)) db.sessions);
}

-- `s.isascii()`
unfoldable pub is_ascii : String → Bool
is_ascii String.[] = true
is_ascii (String.◌∷◌ c s) = ltb (code c) 128 && is_ascii s

-- `secrets.compare_digest(a, b)`, which takes texts of ASCII characters only.
unfoldable pub compare_digest : String → String → Result Bool
unfolding is_ascii
compare_digest a b = if is_ascii a && is_ascii b then ok (a == b) else err type_error

-- `cookie_state and secrets.compare_digest(cookie_state, state)`
unfoldable pub same_browser : String → String → Result Bool
unfolding compare_digest
same_browser cookie state = if truthy cookie then compare_digest cookie state else ok false

-- `_validate_admin_access_token` refreshes nothing.
abbrev pub no_refresh : String → Option Refreshed
no_refresh r = none

module _ (validate : String → Option Fields) (exchange : String → String → Option Tokens) where
  -- The session for claims that are valid, once their expiry is read.
  abbrev pub open_session : String → ℕ → Tokens → String → Fields → Db → Result Callback × Db
  open_session sid now tokens access claims db = elim (expiry claims) [
    | err e ↦ (err e, db)
    | ok exp ↦ (ok (logged_in sid), add_session sid tokens access exp now db)
  ]

  -- `except HTTPException: return _denied_page(…)`
  abbrev pub judged : String → ℕ → Tokens → String → Result Fields → Db → Result Callback × Db
  judged sid now tokens access (ok claims) db = open_session sid now tokens access claims db
  judged sid now tokens access (err (http status)) db = (ok denied, db)
  judged sid now tokens access (err e) db = (err e, db)

  abbrev pub with_access : String → ℕ → Tokens → Db → Result Callback × Db
  with_access sid now tokens db = elim tokens.access_token [
    | none ↦ (err key_error, db)
    | some access ↦
        judged sid now tokens access (validate_admin_access_token validate no_refresh access) db
  ]

  -- After the state is used up: the exchange of the code.
  abbrev pub exchanged : String → ℕ → Option Tokens → Db → Result Callback × Db
  exchanged sid now none db = (err (http 401), db)
  exchanged sid now (some tokens) db = with_access sid now tokens db

  -- `db.delete(pending)`, committed.
  abbrev pub without_state : String → Db → Db
  without_state state db = record db { pending_logins = delete pending_key state db.pending_logins }

  -- After the test of the cookie.
  abbrev pub known_state : String → String → String → ℕ → Db → Result Callback × Db
  known_state code state sid now db = elim (find pending_key state db.pending_logins) [
    | none ↦ (err (http 400), db)
    | some pending ↦ exchanged sid now (exchange code pending.verifier) (without_state state db)
  ]

  -- The code, the state, the cookie, the new session's id and the time.
  unfoldable pub admin_callback : String → String → String → String → ℕ → Db → Result Callback × Db
  admin_callback code state cookie sid now db = elim (same_browser cookie state) [
    | err e ↦ (err e, db)
    | ok false ↦ (err (http 400), db)
    | ok true ↦ known_state code state sid now db
  ]

-- The cookie of the session, or the empty text.
unfoldable pub admin_logout : String → Db → Db
admin_logout sid db = record db { sessions = keep (λ s. not (s.sid == sid)) db.sessions }
