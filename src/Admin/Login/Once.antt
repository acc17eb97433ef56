-- ===== src/Admin/Login/Once.antt =====
-- A login state is used at most once, and only by the browser that started it.
use masterportal_admin.Base.{
  ℕ, String, true, false, not, ◌==◌, eq_iff, eq_refl, if◌then◌else◌, Option, none, some, List, [],
  ◌∷◌, Result, ok, err, Error, ◌≡◌, refl, ◌∙◌, arith, Bool-cases, Option-cases, Result-cases, inl,
  inr, ◌⊎◌,
}
use masterportal_admin.Base.Text.{truthy}
use masterportal_admin.Json.{Fields}
use masterportal_admin.Db.{Db, AdminPendingLogin}
use masterportal_admin.Db.Query.{find-keep_missing}
use masterportal_admin.Db.Table.{find, add, delete, find-delete}
use masterportal_admin.Admin.Session.{validate_admin_access_token}
use masterportal_admin.Admin.Login.{
  pending_key, admin_login, Tokens, expiry, no_refresh, is_old, is_ascii, compare_digest,
  same_browser, open_session, judged, with_access, exchanged, known_state, without_state,
  admin_callback, admin_logout,
}

-- What a callback with this cookie and a state that is used up raises.
abbrev pub refusal : String → Error
refusal cookie = if is_ascii cookie then Error.http 400 else Error.type_error

module _ (validate : String → Option Fields) (exchange : String → String → Option Tokens) where
  open_session-pending :
      (sid : String) (now : ℕ) (tokens : Tokens) (access : String) (claims : Fields) (db : Db)
      → (open_session validate exchange sid now tokens access claims db).1.pending_logins
        ≡ db.pending_logins
  open_session-pending sid now tokens access claims db = elim (Result-cases (expiry claims)) [
    | inl (exp, e) ↦ rw (e, open_session) refl
    | inr (e, failed) ↦ rw (failed, open_session) refl
  ]

  judged-pending :
      (sid : String) (now : ℕ) (tokens : Tokens) (access : String) (r : Result Fields) (db : Db)
      → (judged validate exchange sid now tokens access r db).1.pending_logins ≡ db.pending_logins
  judged-pending sid now tokens access (ok claims) db =
      open_session-pending sid now tokens access claims db
  judged-pending sid now tokens access (err (Error.http status)) db = refl
  judged-pending sid now tokens access (err e) db = refl

  exchanged-pending :
      (sid : String) (now : ℕ) (o : Option Tokens) (db : Db)
      → (exchanged validate exchange sid now o db).1.pending_logins ≡ db.pending_logins
  exchanged-pending sid now none db = refl
  exchanged-pending sid now (some tokens) db = elim (Option-cases tokens.access_token) [
    | inl missing ↦ rw (missing, with_access) refl
    | inr (access, there) ↦
        rw (there, with_access)
          (judged-pending sid now tokens access
            (validate_admin_access_token validate no_refresh access) db)
  ]

  -- The pending logins that a callback leaves.
  callback-pending :
      (code state cookie sid : String) (now : ℕ) (db : Db)
      → ((admin_callback validate exchange code state cookie sid now db).1.pending_logins
            ≡ db.pending_logins
          × (same_browser cookie state ≡ ok true → find pending_key state db.pending_logins ≡ none))
        ⊎ ((admin_callback validate exchange code state cookie sid now db).1.pending_logins
            ≡ delete pending_key state db.pending_logins)
  unfolding admin_callback
  callback-pending code state cookie sid now db = elim (Result-cases (same_browser cookie state)) [
    | inr (e, strange) ↦ inl (rw (strange, admin_callback) refl, λ same. cc)
    | inl (false, foreign) ↦ inl (rw (foreign, admin_callback) refl, λ same. cc)
    | inl (true, same) ↦ elim (Option-cases (find pending_key state db.pending_logins)) [
      | inl unknown ↦ inl (rw (same, unknown, admin_callback, known_state) refl, λ h. unknown)
      | inr (pending, there) ↦ inr (
          rw (same, there, admin_callback, known_state)
            (exchanged-pending sid now (exchange code pending.verifier)
              (without_state validate exchange state db)))
    ]
  ]

  -- What happens to the tables of logins, by whoever: a login that is given another state, a callback
  -- with any code, state, cookie and session id, or a logout.
  pub data Flow (state : String) : Db → Db → Type 0 where
    login :
        (challenge_of : String → String) (other verifier : String) (now : ℕ)
        (prompt : Option String) (db after : Db)
        → (other == state) ≡ false
        → after ≡ (admin_login challenge_of other verifier now prompt db).1
        → Flow state db after
    callback :
        (code other cookie sid : String) (now : ℕ) (db after : Db)
        → after ≡ (admin_callback validate exchange code other cookie sid now db).1
        → Flow state db after
    logout : (sid : String) (db after : Db) → after ≡ admin_logout sid db → Flow state db after

  pub data Flows (state : String) : Db → Db → Type 0 where
    done : {db : Db} → Flows state db db
    step : {db next after : Db} → Flow state db next → Flows state next after → Flows state db after

  -- No login is pending under the state.
  abbrev pub IsUsed : String → Db → Type 0
  IsUsed state db = find pending_key state db.pending_logins ≡ none

  find-add_missing :
      (state : String) (p : AdminPendingLogin) (rows : List AdminPendingLogin)
      → (p.state == state) ≡ false
      → find pending_key state rows ≡ none
      → find pending_key state (add pending_key p rows) ≡ none
  unfolding find
  find-add_missing state p [] apart h = rw apart refl
  find-add_missing state p (q ∷ rows) apart h = ground (arith, find-add_missing state p rows apart)

  callback-IsUsed :
      (state code other cookie sid : String) (now : ℕ) (db : Db)
      → IsUsed state db
      → IsUsed state (admin_callback validate exchange code other cookie sid now db).1
  callback-IsUsed state code other cookie sid now db used =
      elim (callback-pending code other cookie sid now db) [
        | inl (same, unknown) ↦ rw same used
        | inr dropped ↦
            rw dropped
              (find-delete pending_key other state db.pending_logins ∙ rw used (ground arith))
      ]

  -- A callback from the browser that has the state's cookie leaves the state used, however it ends.
  callback-uses :
      (code state cookie sid : String) (now : ℕ) (db : Db)
      → same_browser cookie state ≡ ok true
      → IsUsed state (admin_callback validate exchange code state cookie sid now db).1
  callback-uses code state cookie sid now db same =
      elim (callback-pending code state cookie sid now db) [
        | inl (kept, unknown) ↦ rw kept (unknown same)
        | inr dropped ↦
            rw dropped
              (find-delete pending_key state state db.pending_logins ∙ rw (eq_refl state) refl)
      ]

  Flow-IsUsed :
      {state : String} {db after : Db} → Flow state db after → IsUsed state db → IsUsed state after
  unfolding admin_login admin_logout
  Flow-IsUsed {state = state} (login challenge_of other verifier now prompt db after apart e) used =
      rw e (
        find-add_missing state _ _ apart
          (find-keep_missing pending_key (λ p. not (is_old now p)) state db.pending_logins used))
  Flow-IsUsed {state = state} (callback code other cookie sid now db after e) used =
      rw e (callback-IsUsed state code other cookie sid now db used)
  Flow-IsUsed (logout sid db after e) used = rw e used

  Flows-IsUsed :
      {state : String} {db after : Db} → Flows state db after → IsUsed state db → IsUsed state after
  Flows-IsUsed done used = used
  Flows-IsUsed (step f fs) used = Flows-IsUsed fs (Flow-IsUsed f used)

  -- A used state, by a cookie that the comparison takes or not.
  callback_refused :
      (code state cookie sid : String) (now : ℕ) (db : Db)
      → is_ascii state ≡ true
      → IsUsed state db
      → admin_callback validate exchange code state cookie sid now db ≡ (err (refusal cookie), db)
  unfolding admin_callback same_browser compare_digest
  callback_refused code state cookie sid now db plain used = elim (Bool-cases (is_ascii cookie)) [
    | inr strange ↦ elim (Bool-cases (truthy cookie)) [
      | inr empty ↦
          let e : cookie ≡ "" = ground (arith, eq_iff cookie "") in
          let no : is_ascii cookie ≡ true = rw e refl in cc
      | inl full ↦ rw (full, strange, admin_callback, same_browser) refl
    ]
    | inl ascii ↦ elim (Bool-cases (truthy cookie)) [
      | inr empty ↦ rw (ascii, empty, admin_callback, same_browser) refl
      | inl full ↦ elim (Bool-cases (cookie == state)) [
        | inr foreign ↦ rw (ascii, full, plain, foreign, admin_callback, same_browser) refl
        | inl same ↦
            rw (ascii, full, plain, same, used, admin_callback, same_browser, known_state) refl
      ]
    ]
  ]

  same_browser-is_ascii :
      (cookie state : String) → same_browser cookie state ≡ ok true → is_ascii state ≡ true
  unfolding same_browser compare_digest
  same_browser-is_ascii cookie state h = ground arith

  -- After a callback with the state's cookie, however it ended, and after any logins with other
  -- states, callbacks and logouts that follow, every further callback with that state changes nothing
  -- and raises: the refusal with 400, or the TypeError of the comparison if its cookie has a character
  -- outside ASCII.
  pub admin_callback_once :
      (code state cookie sid : String) (now : ℕ) (db later : Db)
      → same_browser cookie state ≡ ok true
      → Flows state (admin_callback validate exchange code state cookie sid now db).1 later
      → (code' cookie' sid' : String) (now' : ℕ)
      → admin_callback validate exchange code' state cookie' sid' now' later
        ≡ (err (refusal cookie'), later)
  admin_callback_once code state cookie sid now db later same flows code' cookie' sid' now' =
      callback_refused code' state cookie' sid' now' later (same_browser-is_ascii cookie state same)
        (Flows-IsUsed flows (callback-uses code state cookie sid now db same))
