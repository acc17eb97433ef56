-- ===== src/Auth/Tests.antt =====
-- A token of the portal.
use masterportal_admin.Base.{
  ℕ, String, true, ◌==◌, Option, none, some, Result, ok, err, http, jwt_error, if◌then◌else◌, ◌≡◌,
  refl,
}
use masterportal_admin.Json.{Value, str, Fields, end, field}
use masterportal_admin.Json.Object.{get}
use masterportal_admin.Auth.Token.{
  get_jwks_client, validate_token, current_user, drop_text, is_access,
}
use masterportal_admin.Auth.Verified.{IsIssuersKeys, current_user_verified}

abbrev claims : Fields
claims = field "sub" (str "u1") (field "typ" (str "Bearer") end)

abbrev discover : Result Fields
discover = ok (field "issuer" (str "https://idp") end)

abbrev decode : Value → String → String → Result Fields
decode keys token audience =
    if token == "good"
    then ok claims
    else if token == "id"
    then ok (field "typ" (str "ID") end)
    else err jwt_error

known :
    current_user "https://idp" "https://keys" discover decode none "api" "Bearer good"
    ≡ ok (some claims)
unfolding current_user validate_token get_jwks_client drop_text get
known = refl

-- An identity token and a bad token are refused, and no token is an anonymous caller.
others :
    (current_user "https://idp" "https://keys" discover decode none "api" "Bearer id"
      ≡ err (http 401))
    × (current_user "https://idp" "https://keys" discover decode none "api" "Bearer bad"
        ≡ err (http 401))
    × (current_user "https://other" "https://keys" discover decode none "api" "Bearer good"
        ≡ err (http 401))
    × (current_user "https://idp" "https://keys" discover decode none "api" "" ≡ ok none)
unfolding current_user validate_token get_jwks_client drop_text get
others = (refl, refl, refl, refl)

abbrev answers : ℕ → Result Fields
answers n = discover

current_user_verified_example :
    (keys : Value) × (found : Fields) × (◌≡◌ {A = Option Fields} (some claims) (some found))
    × IsIssuersKeys "https://idp" "https://keys" answers 0 keys
    × (decode keys (drop_text 7 "Bearer good") "api" ≡ ok found)
    × (is_access (get "typ" found) ≡ true)
current_user_verified_example =
    current_user_verified "https://idp" "https://keys" answers decode 0 none "api" "Bearer good"
      (some claims) tt refl known
