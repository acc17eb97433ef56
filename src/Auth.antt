-- ===== src/Auth.antt =====
-- app/auth.py: the verification of a token, and the roles in its claims.
pub mod Token
pub mod Verified
mod Tests
use masterportal_admin.Base.{String, List, [], ◌∷◌, ◌++◌, Result, ok, err, type_error, ◌>>=◌}
use masterportal_admin.Json.{Value, str, arr, obj, nil, Fields, end}
use masterportal_admin.Json.Object.{get_or, iterate}

-- `set(values)`. A list or dict cannot be hashed. Members that are no texts equal no role's name,
-- and are left out.
hashed : List Value → Result (List String)
hashed [] = ok []
hashed (str s ∷ vs) = do rest ← hashed vs; ok (s ∷ rest)
hashed (arr _ ∷ vs) = err type_error
hashed (obj _ ∷ vs) = err type_error
hashed (_ ∷ vs) = hashed vs

-- Keycloak realm roles, and the flat `roles` claim of other providers.
unfoldable pub roles : Fields → Result (List String)
unfolding hashed get_or iterate
roles claims = do
  access ← get_or (obj claims) "realm_access" (obj end)
  realm ← get_or access "roles" (arr nil)
  flat ← get_or (obj claims) "roles" (arr nil)
  realm_members ← iterate realm
  realm_roles ← hashed realm_members
  flat_members ← iterate flat
  flat_roles ← hashed flat_members
  ok (realm_roles ++ flat_roles)
