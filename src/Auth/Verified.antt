-- ===== src/Auth/Verified.antt =====
-- What `current_user` of app/auth.py returns for a token, and by whose keys.
use text.Mathlib.Text.{starts_with}
use masterportal_admin.Base.{
  ℕ, String, true, Option, none, some, Result, ok, err, key_error, runtime_error, >>=-eq-ok,
  ok-injective, ◌≡◌, ◌≢◌, sym, ap, ◌∙◌, ◌⊎◌, ◌≤◌, eq_iff, arith, Bool-cases, Option-cases, inl, inr,
}
use masterportal_admin.Base.Text.{truthy}
use masterportal_admin.Json.{Value, null, bool, int, float, str, arr, obj, Fields}
use masterportal_admin.Json.Object.{get}
use masterportal_admin.Json.Update.{is_text}
use masterportal_admin.Auth.Token.{
  drop_text, is_access, issued_by, keys_address, get_jwks_client, current_user, current_user-ok,
}

is_text-eq : (s : String) (v : Value) → is_text s v ≡ true → v ≡ str s
is_text-eq s (str t) h = ap str ((eq_iff t s).0 h)
is_text-eq s null h = cc
is_text-eq s (bool b) h = cc
is_text-eq s (int n) h = cc
is_text-eq s (float r) h = cc
is_text-eq s (arr vs) h = cc
is_text-eq s (obj d) h = cc

issued_by-eq :
    (issuer : String) (o : Option Value) → issued_by issuer o ≡ true → o ≡ some (str issuer)
issued_by-eq issuer none h = cc
issued_by-eq issuer (some v) h = ap some (is_text-eq issuer v h)

module _ (issuer jwks_url : String) (answers : ℕ → Result Fields) where
  -- The address of the keys that a discovery document gives.
  abbrev pub IsAddress : Fields → Value → Type 0
  IsAddress meta keys =
      ((jwks_url ≢ "") × (keys ≡ str jwks_url))
      ⊎ ((jwks_url ≡ "") × (get "jwks_uri" meta ≡ some keys))

  -- The keys are at the address of a document of the issuer, which the discovery gave in one of the
  -- rounds up to `now`.
  abbrev pub IsIssuersKeys : ℕ → Value → Type 0
  IsIssuersKeys now keys =
      (n : ℕ) × (meta : Fields) × (n ≤ now)
      × (answers n ≡ ok meta)
      × (get "issuer" meta ≡ some (str issuer))
      × IsAddress meta keys

  abbrev pub CachedKeys : ℕ → Option Value → Type 0
  CachedKeys now none = Unit
  CachedKeys now (some keys) = IsIssuersKeys now keys

  keys_address-IsAddress :
      (decode : Value → String → String → Result Fields) (now : ℕ) (meta : Fields) (keys : Value)
      → keys_address issuer jwks_url (answers now) decode meta ≡ ok keys
      → IsAddress meta keys
  keys_address-IsAddress decode now meta keys h = elim (Bool-cases (truthy jwks_url)) [
    | inl set ↦
        let h' : ok (str jwks_url) ≡ ok keys = rw set at h in
        inl (ground (arith, eq_iff jwks_url ""), sym (ok-injective h'))
    | inr unset ↦ elim (Option-cases (get "jwks_uri" meta)) [
      | inl missing ↦
          let h' : err key_error ≡ ok keys = rw (unset, missing, keys_address) at h in cc
      | inr (v, there) ↦
          let h' : ok v ≡ ok keys = rw (unset, there, keys_address) at h in
          inr (ground (arith, eq_iff jwks_url ""), there ∙ ap some (ok-injective h'))
    ]
  ]

  get_jwks_client-IsIssuersKeys :
      (decode : Value → String → String → Result Fields) (now : ℕ) (cached : Option Value)
      (keys : Value)
      → CachedKeys now cached
      → get_jwks_client issuer jwks_url (answers now) decode cached ≡ ok keys
      → IsIssuersKeys now keys
  unfolding get_jwks_client
  get_jwks_client-IsIssuersKeys decode now (some k) keys trusted h =
      rw (sym (ok-injective h)) trusted
  get_jwks_client-IsIssuersKeys decode now none keys trusted h =
      let (meta, answered, h1) = >>=-eq-ok (answers now) _ h in
      elim (Bool-cases (issued_by issuer (get "issuer" meta))) [
        | inr other ↦ let h' : err runtime_error ≡ ok keys = rw other at h1 in cc
        | inl own ↦ (
          now,
          meta,
          omega arith,
          answered,
          issued_by-eq issuer (get "issuer" meta) own,
          keys_address-IsAddress decode now meta keys (rw own at h1),
        )
      ]

  -- `answers n` is what the discovery gives in round `n`. If a cached address is that of a document
  -- of the issuer, a header has a token and `current_user` returns in the round `now`, then it returns
  -- claims, never an anonymous caller: those that the library gives for the token, the audience and
  -- keys at the configured address, or without one at the `jwks_uri` of a document that the discovery
  -- gave up to then, whose issuer is the configured one in both cases; and those of an access token.
  pub current_user_verified :
      (decode : Value → String → String → Result Fields) (now : ℕ) (cached : Option Value)
      (audience header : String) (user : Option Fields)
      → CachedKeys now cached
      → starts_with header "Bearer " ≡ true
      → current_user issuer jwks_url (answers now) decode cached audience header ≡ ok user
      → (keys : Value) × (claims : Fields) × (user ≡ some claims)
        × IsIssuersKeys now keys
        × (decode keys (drop_text 7 header) audience ≡ ok claims)
        × (is_access (get "typ" claims) ≡ true)
  current_user_verified decode now cached audience header user trusted bearer h =
      let (keys, claims, same, found, checked, access) =
        current_user-ok issuer jwks_url (answers now) decode cached audience header user bearer h in
      (
        keys,
        claims,
        same,
        get_jwks_client-IsIssuersKeys decode now cached keys trusted found,
        checked,
        access,
      )
