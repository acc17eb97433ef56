-- ===== src/Auth/Token.antt =====
-- `_get_jwks_client`, `validate_token` and `current_user` of app/auth.py.
--
-- The HTTP client and the JWT library are parameters: `discover` fetches the discovery document, and
-- `decode` checks a token with the keys at an address, for an audience, and gives its claims.
use text.Mathlib.Text.{starts_with}
use masterportal_admin.Base.{
  ℕ, zero, suc, String, Bool, true, false, not, Option, none, some, Result, ok, err, Error, http,
  key_error, runtime_error, jwt_error, transport_error, ◌>>=◌, >>=-eq-ok, ok-injective,
  if◌then◌else◌, ◌≡◌, refl, sym, ap, ◌∙◌, Bool-cases, inl, inr,
}
use masterportal_admin.Base.Text.{truthy}
use masterportal_admin.Json.{Value, null, str, Fields}
use masterportal_admin.Json.Object.{get}
use masterportal_admin.Json.Update.{is_text}

-- `s[n:]`
unfoldable pub drop_text : ℕ → String → String
drop_text zero s = s
drop_text (suc n) String.[] = ""
drop_text (suc n) (String.◌∷◌ c s) = drop_text n s

-- `claims.get("typ") not in (None, "Bearer")`
abbrev pub is_access : Option Value → Bool
is_access none = true
is_access (some null) = true
is_access (some v) = is_text "Bearer" v

abbrev pub issued_by : String → Option Value → Bool
issued_by issuer none = false
issued_by issuer (some v) = is_text issuer v

module _ (issuer jwks_url : String) (discover : Result Fields)
    (decode : Value → String → String → Result Fields) where
  -- `OIDC_JWKS_URL or meta["jwks_uri"]`
  abbrev pub keys_address : Fields → Result Value
  keys_address meta =
      if truthy jwks_url
      then ok (str jwks_url)
      else elim (get "jwks_uri" meta) [ none ↦ err key_error | some v ↦ ok v ]

  abbrev pub discovered : Fields → Result Value
  discovered meta =
      if issued_by issuer (get "issuer" meta) then keys_address meta else err runtime_error

  -- The address of the keys, which stands for the client, and the cached one after the call.
  unfoldable pub get_jwks_client : Option Value → Result Value
  get_jwks_client (some address) = ok address
  get_jwks_client none = discover >>= discovered

  abbrev pub access_only : Fields → Result Fields
  access_only claims = if is_access (get "typ" claims) then ok claims else err jwt_error

  unfoldable pub validate_token : Option Value → String → String → Result Fields
  validate_token cached token audience = do
    keys ← get_jwks_client cached
    claims ← decode keys token audience
    access_only claims

  -- `except (jwt.PyJWTError, httpx.HTTPError, RuntimeError)`
  abbrev pub or_unauthorized : Result Fields → Result (Option Fields)
  or_unauthorized (ok claims) = ok (some claims)
  or_unauthorized (err jwt_error) = err (http 401)
  or_unauthorized (err transport_error) = err (http 401)
  or_unauthorized (err runtime_error) = err (http 401)
  or_unauthorized (err e) = err e

  -- The header `Authorization`, or the empty text.
  unfoldable pub current_user : Option Value → String → String → Result (Option Fields)
  unfolding drop_text
  current_user cached audience header =
      if not (starts_with header "Bearer ")
      then ok none
      else or_unauthorized (validate_token cached (drop_text 7 header) audience)

  or_unauthorized-ok :
      (r : Result Fields) (o : Option Fields)
      → or_unauthorized r ≡ ok o
      → (claims : Fields) × (r ≡ ok claims) × (o ≡ some claims)
  or_unauthorized-ok (ok claims) o h = (claims, refl, sym (ok-injective h))
  or_unauthorized-ok (err (Error.http n)) o h = cc
  or_unauthorized-ok (err Error.attribute_error) o h = cc
  or_unauthorized-ok (err Error.type_error) o h = cc
  or_unauthorized-ok (err Error.key_error) o h = cc
  or_unauthorized-ok (err Error.value_error) o h = cc
  or_unauthorized-ok (err Error.index_error) o h = cc
  or_unauthorized-ok (err Error.runtime_error) o h = cc
  or_unauthorized-ok (err Error.jwt_error) o h = cc
  or_unauthorized-ok (err Error.transport_error) o h = cc

  access_only-ok :
      (claims result : Fields)
      → access_only claims ≡ ok result
      → (claims ≡ result) × (is_access (get "typ" result) ≡ true)
  access_only-ok claims result h = elim (Bool-cases (is_access (get "typ" claims))) [
    | inl access ↦
        let e : claims ≡ result = ok-injective (rw access at h) in
        (e, ap (λ c. is_access (get "typ" c)) (sym e) ∙ access)
    | inr other ↦ let h' : err jwt_error ≡ ok result = rw other at h in cc
  ]

  pub current_user-ok :
      (cached : Option Value) (audience header : String) (user : Option Fields)
      → starts_with header "Bearer " ≡ true
      → current_user cached audience header ≡ ok user
      → (keys : Value) × (claims : Fields) × (user ≡ some claims)
        × (get_jwks_client cached ≡ ok keys)
        × (decode keys (drop_text 7 header) audience ≡ ok claims)
        × (is_access (get "typ" claims) ≡ true)
  unfolding current_user validate_token
  current_user-ok cached audience header user bearer h =
      let h' : or_unauthorized (validate_token cached (drop_text 7 header) audience) ≡ ok user =
        rw bearer at h in
      let (claims, valid, same) =
        or_unauthorized-ok (validate_token cached (drop_text 7 header) audience) user h' in
      let (keys, found, h1) = >>=-eq-ok (get_jwks_client cached) _ valid in
      let (decoded, checked, h2) = >>=-eq-ok (decode keys (drop_text 7 header) audience) _ h1 in
      let (e, access) = access_only-ok decoded claims h2 in
      (keys, claims, same, found, checked ∙ ap ok e, access)
