-- ===== src/Admin/Session/Admits.antt =====
-- Whom `require_admin` lets pass.
use masterportal_admin.Base.{
  ℕ, ◌+◌, ◌<◌, ◌≤◌, String, true, ◌==◌, ltb, eq_iff, Option, none, some, List, ok, err, http, ◌>>=◌,
  >>=-eq-ok, ok-injective, contains, ◌≡◌, ◌≢◌, refl, sym, ap, ◌∙◌, ◌⊎◌, arith, Bool-cases,
  Option-cases, inl, inr,
}
use masterportal_admin.Base.Text.{truthy}
use masterportal_admin.Json.{Fields}
use masterportal_admin.Db.{Db, AdminSession}
use masterportal_admin.Db.Table.{find}
use masterportal_admin.Auth
use masterportal_admin.Access.{admin_role}
use masterportal_admin.Admin.Session.{
  AdminRequest, Refreshed, session_key, admin_only, validate_admin_access_token, refreshed,
  refresh_session, live_session, check_origin, with_session, require_admin,
}

-- The claims are those of this token, and have the admin role.
abbrev pub IsAdmin : (String → Option Fields) → String → Fields → Type 0
IsAdmin validate token claims =
    (roles : List String) × (validate token ≡ some claims)
    × (Auth.roles claims ≡ ok roles)
    × (contains roles admin_role ≡ true)

-- `s` still lasts 30 seconds and is used as it is, or its refresh token, which is not empty, was
-- exchanged for the access token of `live`.
abbrev pub IsLive : (String → Option Refreshed) → ℕ → AdminSession → AdminSession → Type 0
IsLive endpoint now s live =
    ((now + 30 ≤ s.exp) × (live ≡ s))
    ⊎ ((s.exp < now + 30)
        × (r : String) × (tokens : Refreshed) × (s.refresh ≡ some r)
        × (r ≢ "")
        × (endpoint r ≡ some tokens)
        × (live.access ≡ tokens.access_token))

admin_only-ok :
    (claims result : Fields) (roles : List String)
    → admin_only claims roles ≡ ok result
    → (claims ≡ result) × (contains roles admin_role ≡ true)
admin_only-ok claims result roles h = elim (Bool-cases (contains roles admin_role)) [
  | inl admin ↦ (ok-injective (rw admin at h), admin)
  | inr other ↦ let h' : err (http 403) ≡ ok result = rw other at h in cc
]

module _ (validate : String → Option Fields) (endpoint : String → Option Refreshed) where
  pub validate-IsAdmin :
      (token : String) (claims : Fields)
      → validate_admin_access_token validate endpoint token ≡ ok claims
      → IsAdmin validate token claims
  unfolding validate_admin_access_token
  validate-IsAdmin token claims h = elim (Option-cases (validate token)) [
    | inl bad ↦
        let h' : err (http 401) ≡ ok claims = rw (bad, validate_admin_access_token) at h in cc
    | inr (found, good) ↦
        let h' : (Auth.roles found >>= admin_only found) ≡ ok claims =
          rw (good, validate_admin_access_token) at h in
        let (roles, e, h1) = >>=-eq-ok (Auth.roles found) _ h' in
        let (same, admin) = admin_only-ok found claims roles h1 in
        (roles, good ∙ ap some same, ap Auth.roles (sym same) ∙ e, admin)
  ]

  truthy-ne : (r : String) → truthy r ≡ true → r ≢ ""
  truthy-ne r h = ground (arith, eq_iff r "")

  refresh_session-some :
      (now : ℕ) (s live : AdminSession)
      → refresh_session validate endpoint now s ≡ some live
      → (r : String) × (tokens : Refreshed) × (s.refresh ≡ some r)
        × (r ≢ "")
        × (endpoint r ≡ some tokens)
        × (live.access ≡ tokens.access_token)
  unfolding refresh_session
  refresh_session-some now s live h = elim (Option-cases s.refresh) [
    | inl missing ↦ let h' : none ≡ some live = rw (missing, refresh_session) at h in cc
    | inr (r, there) ↦ elim (Bool-cases (truthy r)) [
      | inr empty ↦ let h' : none ≡ some live = rw (there, empty, refresh_session) at h in cc
      | inl full ↦ elim (Option-cases (endpoint r)) [
        | inl refused ↦
            let h' : none ≡ some live = rw (there, full, refused, refresh_session) at h in cc
        | inr (tokens, given) ↦
            let h' : some (refreshed validate endpoint now tokens s) ≡ some live =
              rw (there, full, given, refresh_session) at h in
            (r, tokens, there, truthy-ne r full, given, cc)
      ]
    ]
  ]

  live_session-IsLive :
      (now : ℕ) (s live : AdminSession)
      → live_session validate endpoint now s ≡ some live
      → IsLive endpoint now s live
  unfolding live_session
  live_session-IsLive now s live h = elim (Bool-cases (ltb s.exp (now + 30))) [
    | inr lasts ↦ let h' : some s ≡ some live = rw lasts at h in inl (ground arith, cc)
    | inl ends ↦
        let (r, tokens, there, full, given, renewed) =
          refresh_session-some now s live (rw ends at h) in
        inr (ground arith, r, tokens, there, full, given, renewed)
  ]

  check_origin-ok :
      (origins : List String) (request : AdminRequest) (s : AdminSession) (claims : Fields)
      → check_origin validate endpoint origins request s ≡ ok claims
      → IsAdmin validate s.access claims
        × (((request.method == "GET") ≡ true) ⊎ (contains origins request.origin ≡ true))
  check_origin-ok origins request s claims h = elim (Bool-cases (request.method == "GET")) [
    | inl read ↦ (validate-IsAdmin s.access claims (rw read at h), inl read)
    | inr write ↦ elim (Bool-cases (contains origins request.origin)) [
      | inl own ↦ (validate-IsAdmin s.access claims (rw (write, own) at h), inr own)
      | inr foreign ↦ let h' : err (http 403) ≡ ok claims = rw (write, foreign) at h in cc
    ]
  ]

  -- Why a request without a bearer token is let pass.
  pub record HasSession (origins : List String) (now : ℕ) (request : AdminRequest) (db : Db)
      (claims : Fields) : Type 0 where
    pub stored : AdminSession
    pub live : AdminSession
    pub no_bearer : request.bearer ≡ none
    pub has_cookie : find session_key request.session db.sessions ≡ some stored
    pub is_live : IsLive endpoint now stored live
    pub is_admin : IsAdmin validate live.access claims
    pub from_origin : ((request.method == "GET") ≡ true) ⊎ (contains origins request.origin ≡ true)

  with_session-ok :
      (origins : List String) (now : ℕ) (request : AdminRequest) (db : Db) (s : AdminSession)
      (claims : Fields)
      → request.bearer ≡ none
      → find session_key request.session db.sessions ≡ some s
      → (o : Option AdminSession) → live_session validate endpoint now s ≡ o
      → (with_session validate endpoint origins request db o).0 ≡ ok claims
      → HasSession origins now request db claims
  with_session-ok origins now request db s claims missing found none dead h = cc
  with_session-ok origins now request db s claims missing found (some live) alive h =
      let (admin, origin) = check_origin-ok origins request live claims h in
      record {
        stored = s;
        live = live;
        no_bearer = missing;
        has_cookie = found;
        is_live = live_session-IsLive now s live alive;
        is_admin = admin;
        from_origin = origin;
      }

  -- If `require_admin` returns claims, then either they are those of the bearer token of the request,
  -- and have the admin role; or the request has no bearer token, a session is stored under its cookie,
  -- the claims are those of that session's access token, or of the one that its refresh token was
  -- exchanged for where it ends within 30 seconds, they have the admin role, and the request is a GET
  -- or has one of the portal's origins.
  pub require_admin-IsAdmin :
      (origins : List String) (now : ℕ) (request : AdminRequest) (db : Db) (claims : Fields)
      → (require_admin validate endpoint origins now request db).0 ≡ ok claims
      → ((token : String) × (request.bearer ≡ some token) × IsAdmin validate token claims)
        ⊎ HasSession origins now request db claims
  unfolding require_admin
  require_admin-IsAdmin origins now request db claims h = elim (Option-cases request.bearer) [
    | inr (token, e) ↦
        let h' : validate_admin_access_token validate endpoint token ≡ ok claims =
          rw (e, require_admin) at h in
        inl (token, e, validate-IsAdmin token claims h')
    | inl e ↦ elim (Option-cases (find session_key request.session db.sessions)) [
      | inl none_found ↦
          let h' : err (http 401) ≡ ok claims = rw (e, none_found, require_admin) at h in cc
      | inr (s, found) ↦
          let h' : (with_session validate endpoint origins request db
                (live_session validate endpoint now s)).0
              ≡ ok claims =
            rw (e, found, require_admin) at h in
          inr (with_session-ok origins now request db s claims e found _ refl h')
    ]
  ]
