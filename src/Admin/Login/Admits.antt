-- ===== src/Admin/Login/Admits.antt =====
-- Whom a callback logs in.
use masterportal_admin.Base.{
  ℕ, String, true, false, Option, none, some, Result, ok, err, Error, ◌≡◌, eq_iff, arith, refl, sym,
  ap, Option-cases, Result-cases, inl, inr,
}
use masterportal_admin.Json.{Fields}
use masterportal_admin.Db.{Db, AdminPendingLogin}
use masterportal_admin.Db.Table.{find}
use masterportal_admin.Admin.Session.{validate_admin_access_token}
use masterportal_admin.Admin.Session.Admits.{IsAdmin, validate-IsAdmin}
use masterportal_admin.Admin.Login.{
  pending_key, Tokens, logged_in, denied, expiry, no_refresh, add_session, compare_digest,
  same_browser, open_session, judged, with_access, exchanged, known_state, without_state,
  admin_callback,
}

logged_in-injective : {a b : String} → ok (logged_in a) ≡ ok (logged_in b) → b ≡ a
logged_in-injective h = cc

failed : {e : Error} {id : String} {P : Type 0} → err e ≡ ok (logged_in id) → P
failed h = cc

same_browser-eq : (cookie state : String) → same_browser cookie state ≡ ok true → cookie ≡ state
unfolding same_browser compare_digest
same_browser-eq cookie state h = ground (arith, eq_iff cookie state)

module _ (validate : String → Option Fields) (exchange : String → String → Option Tokens) where
  -- Why the tokens opened a session.
  pub record Opened (sid id : String) (now : ℕ) (tokens : Tokens) (db after : Db) : Type 0 where
    pub access : String
    pub claims : Fields
    pub exp : ℕ
    pub same_id : id ≡ sid
    pub has_access : tokens.access_token ≡ some access
    pub is_admin : IsAdmin validate access claims
    pub ends : expiry claims ≡ ok exp
    pub opened : after ≡ add_session sid tokens access exp now db

  open_session-ok :
      (sid id : String) (now : ℕ) (tokens : Tokens) (access : String) (claims : Fields)
      (db after : Db)
      → open_session validate exchange sid now tokens access claims db ≡ (ok (logged_in id), after)
      → (exp : ℕ) × (expiry claims ≡ ok exp)
        × (id ≡ sid)
        × (after ≡ add_session sid tokens access exp now db)
  open_session-ok sid id now tokens access claims db after h = elim (Result-cases (expiry claims)) [
    | inl (exp, e) ↦
        let h' : (ok (logged_in sid), add_session sid tokens access exp now db)
            ≡ (ok (logged_in id), after) =
          rw (e, open_session) at h in
        (exp, e, logged_in-injective (ap (λ r. r.0) h'), sym (ap (λ r. r.1) h'))
    | inr (e, failed) ↦
        let h' : (err e, db) ≡ (ok (logged_in id), after) = rw (failed, open_session) at h in
        let no : err e ≡ ok (logged_in id) = ap (λ r. r.0) h' in cc
  ]

  judged-ok :
      (sid id : String) (now : ℕ) (tokens : Tokens) (access : String) (r : Result Fields)
      (db after : Db)
      → judged validate exchange sid now tokens access r db ≡ (ok (logged_in id), after)
      → (claims : Fields) × (r ≡ ok claims)
        × (open_session validate exchange sid now tokens access claims db
            ≡ (ok (logged_in id), after))
  judged-ok sid id now tokens access (ok claims) db after h = (claims, refl, h)
  judged-ok sid id now tokens access (err (Error.http status)) db after h =
      let no : ok denied ≡ ok (logged_in id) = ap (λ r. r.0) h in cc
  judged-ok sid id now tokens access (err Error.attribute_error) db after h =
      failed (ap (λ r. r.0) h)
  judged-ok sid id now tokens access (err Error.type_error) db after h = failed (ap (λ r. r.0) h)
  judged-ok sid id now tokens access (err Error.key_error) db after h = failed (ap (λ r. r.0) h)
  judged-ok sid id now tokens access (err Error.value_error) db after h = failed (ap (λ r. r.0) h)
  judged-ok sid id now tokens access (err Error.index_error) db after h = failed (ap (λ r. r.0) h)
  judged-ok sid id now tokens access (err Error.runtime_error) db after h = failed (ap (λ r. r.0) h)
  judged-ok sid id now tokens access (err Error.jwt_error) db after h = failed (ap (λ r. r.0) h)
  judged-ok sid id now tokens access (err Error.transport_error) db after h =
      failed (ap (λ r. r.0) h)

  exchanged-ok :
      (sid id : String) (now : ℕ) (o : Option Tokens) (db after : Db)
      → exchanged validate exchange sid now o db ≡ (ok (logged_in id), after)
      → (tokens : Tokens) × (o ≡ some tokens) × Opened sid id now tokens db after
  exchanged-ok sid id now none db after h =
      let no : err (Error.http 401) ≡ ok (logged_in id) = ap (λ r. r.0) h in cc
  exchanged-ok sid id now (some tokens) db after h = elim (Option-cases tokens.access_token) [
    | inl missing ↦
        let h' : (err Error.key_error, db) ≡ (ok (logged_in id), after) =
          rw (missing, with_access) at h in
        let no : err Error.key_error ≡ ok (logged_in id) = ap (λ r. r.0) h' in cc
    | inr (access, there) ↦
        let h' : judged validate exchange sid now tokens access
              (validate_admin_access_token validate no_refresh access) db
            ≡ (ok (logged_in id), after) =
          rw (there, with_access) at h in
        let (claims, valid, ran) =
          judged-ok sid id now tokens access
            (validate_admin_access_token validate no_refresh access) db after h' in
        let (exp, ends, same, opened) =
          open_session-ok sid id now tokens access claims db after ran in
        (
          tokens,
          refl,
          record {
            access = access;
            claims = claims;
            exp = exp;
            same_id = same;
            has_access = there;
            is_admin = validate-IsAdmin validate no_refresh access claims valid;
            ends = ends;
            opened = opened;
          },
        )
  ]

  -- If a callback logs somebody in, then the browser has the state's cookie, the state was pending, the
  -- token endpoint accepted the code with the verifier that was stored under the state, the access
  -- token of its answer is valid and its claims have the admin role, and the state is used up with the
  -- new session stored under the given id, with that access token and the expiry of its claims.
  pub admin_callback-Opened :
      (code state cookie sid id : String) (now : ℕ) (db after : Db)
      → admin_callback validate exchange code state cookie sid now db ≡ (ok (logged_in id), after)
      → (pending : AdminPendingLogin) × (tokens : Tokens) × (cookie ≡ state)
        × (find pending_key state db.pending_logins ≡ some pending)
        × (exchange code pending.verifier ≡ some tokens)
        × Opened sid id now tokens (without_state validate exchange state db) after
  unfolding admin_callback
  admin_callback-Opened code state cookie sid id now db after h =
      elim (Result-cases (same_browser cookie state)) [
        | inr (e, strange) ↦
            let h' : (err e, db) ≡ (ok (logged_in id), after) = rw (strange, admin_callback) at h in
            failed (ap (λ r. r.0) h')
        | inl (false, foreign) ↦
            let h' : (err (Error.http 400), db) ≡ (ok (logged_in id), after) =
              rw (foreign, admin_callback) at h in
            failed (ap (λ r. r.0) h')
        | inl (true, same) ↦ elim (Option-cases (find pending_key state db.pending_logins)) [
          | inl unknown ↦
              let h' : (err (Error.http 400), db) ≡ (ok (logged_in id), after) =
                rw (same, unknown, admin_callback, known_state) at h in
              let no : err (Error.http 400) ≡ ok (logged_in id) = ap (λ r. r.0) h' in cc
          | inr (pending, there) ↦
              let h' : exchanged validate exchange sid now (exchange code pending.verifier)
                    (without_state validate exchange state db)
                  ≡ (ok (logged_in id), after) =
                rw (same, there, admin_callback, known_state) at h in
              let (tokens, accepted, opened) =
                exchanged-ok sid id now (exchange code pending.verifier)
                  (without_state validate exchange state db) after h' in
              (pending, tokens, same_browser-eq cookie state same, there, accepted, opened)
        ]
      ]
