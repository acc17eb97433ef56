-- ===== src/Admin/Login/Tests.antt =====
-- A login at concrete tables: a callback that opens a session, and the same callback again.
use masterportal_admin.Json.Object.{get}
use masterportal_admin.Auth.{roles}
use masterportal_admin.Admin.Session.{validate_admin_access_token}
use masterportal_admin.Base.{
  String, true, ◌==◌, ◌&&◌, if◌then◌else◌, Option, none, some, [], ◌∷◌, ok, err, http, type_error,
  ◌≡◌, refl,
}
use masterportal_admin.Base.Int.{pos}
use masterportal_admin.Json.{int, str, arr, nil, cons, Fields, end, field}
use masterportal_admin.Db.{Db, AdminPendingLogin}
use masterportal_admin.Db.Table.{find, delete}
use masterportal_admin.Admin.Login.{
  Tokens, logged_in, pending_key, same_browser, without_state, admin_callback, admin_login,
  admin_logout,
}
use masterportal_admin.Admin.Login.Once.{refusal, logout, step, done, admin_callback_once}
use masterportal_admin.Admin.Login.Admits.{Opened, admin_callback-Opened}

abbrev no_tables : Db
no_tables = record {
  services = [];
  rest_services = [];
  styles = [];
  portals = [];
  snapshots = [];
  next_snapshot = 1;
  service_roles = [];
  portal_roles = [];
  module_roles = [];
  audit_log = [];
  sessions = [];
  pending_logins = [];
}

abbrev challenge_of : String → String
challenge_of verifier = verifier

abbrev claims : Fields
claims =
    field "sub" (str "u1")
      (field "exp" (int (pos 5000)) (field "roles" (arr (cons (str "admin") nil)) end))

abbrev validate : String → Option Fields
validate token = if token == "token" then some claims else none

abbrev exchange : String → String → Option Tokens
exchange code verifier =
    if code == "code" && verifier == "verifier"
    then some (record { access_token = some "token"; refresh_token = none })
    else none

abbrev waiting : Db
waiting = record no_tables {
  pending_logins = record { state = "state"; verifier = "verifier"; created = 4000 } ∷ [];
}

abbrev logged_tables : Db
logged_tables = record no_tables {
  sessions = record { sid = "sid"; access = "token"; refresh = none; exp = 5000 } ∷ [];
}

waiting_login : (admin_login challenge_of "state" "verifier" 4000 none no_tables).1 ≡ waiting
unfolding admin_login
waiting_login = refl

opened :
    admin_callback validate exchange "code" "state" "state" "sid" 4100 waiting
    ≡ (ok (logged_in "sid"), logged_tables)
unfolding admin_callback same_browser find validate_admin_access_token roles get delete
opened = refl

-- Another browser, without the cookie.
forged :
    admin_callback validate exchange "code" "state" "" "sid" 4100 waiting
    ≡ (err (http 400), waiting)
unfolding admin_callback same_browser
forged = refl

-- A cookie with a character outside ASCII.
strange_cookie :
    admin_callback validate exchange "code" "state" "stäte" "sid" 4100 waiting
    ≡ (err type_error, waiting)
unfolding admin_callback same_browser
strange_cookie = refl

-- The time of the state is not read: an old one still logs in.
old_state :
    admin_callback validate exchange "code" "state" "state" "sid" 9000 waiting
    ≡ (ok (logged_in "sid"), logged_tables)
unfolding admin_callback same_browser find validate_admin_access_token roles get delete
old_state = refl

admin_callback-Opened_example :
    (pending : AdminPendingLogin) × (tokens : Tokens) × (◌≡◌ {A = String} "state" "state")
    × (find pending_key "state" waiting.pending_logins ≡ some pending)
    × (exchange "code" pending.verifier ≡ some tokens)
    × Opened validate exchange "sid" "sid" 4100 tokens
        (without_state validate exchange "state" waiting)
        logged_tables
admin_callback-Opened_example =
    admin_callback-Opened validate exchange "code" "state" "state" "sid" "sid" 4100 waiting
      logged_tables opened

abbrev closed : Db
closed = no_tables

after_callback :
    (admin_callback validate exchange "code" "state" "state" "sid" 4100 waiting).1 ≡ logged_tables
unfolding admin_callback same_browser find validate_admin_access_token roles get delete
after_callback = refl

logged_out :
    closed
    ≡ admin_logout "sid"
        (admin_callback validate exchange "code" "state" "state" "sid" 4100 waiting).1
unfolding admin_callback same_browser admin_logout find validate_admin_access_token roles get delete
logged_out = refl

same_cookie : same_browser "state" "state" ≡ ok true
unfolding same_browser
same_cookie = refl

admin_callback_once_example :
    admin_callback validate exchange "code" "state" "state" "other" 4200 closed
    ≡ (err (refusal "state"), closed)
admin_callback_once_example =
    admin_callback_once validate exchange "code" "state" "state" "sid" 4100 waiting closed
      same_cookie
      (step
        (logout "sid" (admin_callback validate exchange "code" "state" "state" "sid" 4100 waiting).1
          closed logged_out)
        done)
      "code" "state" "other" 4200
