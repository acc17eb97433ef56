-- ===== src/Proxy/Secret.antt =====
-- `_upstream_auth_header` and `_upstream_base` of app/proxy.py. `env` is `os.environ.get`.
use text.Mathlib.Text.{starts_with}
use masterportal_admin.Base.{
  String, true, not, if◌then◌else◌, Option, none, some, [], ◌∷◌, ◌≡◌, refl, Result, ok, err, http,
  Bool-cases, inl, inr, Option-cases, ap, sym, ok-injective,
}
use masterportal_admin.Base.Bytes.{encode, base64}
use masterportal_admin.Base.Dict.{Dict}
use masterportal_admin.Base.Text.{concat, truthy, is_http, strip_right}
use masterportal_admin.Base.{eqb}
use masterportal_admin.Json.{Value, str}
use masterportal_admin.Json.Object.{get}
use masterportal_admin.Db.{Service}

abbrev pub secret_prefix : String
secret_prefix = "UPSTREAM_SECRET_"

-- The variable's value, if there is one and it is not empty.
abbrev pub secret_header : Option String → Result (Dict String)
secret_header none = err (http 503)
secret_header (some secret) =
    if truthy secret
    then ok (("Authorization", concat ("Basic " ∷ base64 (encode secret) ∷ [])) ∷ [])
    else err (http 503)

abbrev named_header : (String → Option String) → String → Result (Dict String)
named_header env name =
    if not (truthy name)
    then ok []
    else if starts_with name secret_prefix
    then secret_header (env name)
    else err (http 503)

unfoldable pub upstream_auth_header : (String → Option String) → Service → Result (Dict String)
upstream_auth_header env service = elim service.upstream_auth_env [
  | none ↦ ok []
  | some name ↦ named_header env name
]

abbrev proxyable : Option Value → Result String
proxyable (some (str u)) =
    if is_http u then ok (strip_right (λ c. eqb c b'/') u) else err (http 502)
proxyable _ = err (http 502)

unfoldable pub upstream_base : Service → Result String
unfolding strip_right
upstream_base service = proxyable (get "url" service.attrs)

named_header_prefix_only :
    (env env' : String → Option String) (name : String)
    → (starts_with name secret_prefix ≡ true → env name ≡ env' name)
    → named_header env name ≡ named_header env' name
named_header_prefix_only env env' name same = elim (Bool-cases (starts_with name secret_prefix)) [
  | inl own ↦
      ap
        (λ o.
          if not (truthy name)
          then ok []
          else if starts_with name secret_prefix
          then secret_header o
          else err (http 503))
        (same own)
  | inr foreign ↦ rw foreign refl
]

-- The header depends on no variable of the environment outside the secrets' prefix: two
-- environments that agree on the variables with that prefix give the same header or error.
pub upstream_auth_header_prefix_only :
    (env env' : String → Option String) (service : Service)
    → ((name : String) → starts_with name secret_prefix ≡ true → env name ≡ env' name)
    → upstream_auth_header env service ≡ upstream_auth_header env' service
unfolding upstream_auth_header
upstream_auth_header_prefix_only env env' service same =
    elim (Option-cases service.upstream_auth_env) [
      | inl e ↦ rw (e, upstream_auth_header) refl
      | inr (name, e) ↦
          rw (e, upstream_auth_header) (named_header_prefix_only env env' name (same name))
    ]

secret_header-ok :
    (o : Option String) (header : Dict String)
    → secret_header o ≡ ok header
    → (secret : String) × (o ≡ some secret)
      × (truthy secret ≡ true)
      × (header ≡ ("Authorization", concat ("Basic " ∷ base64 (encode secret) ∷ [])) ∷ [])
secret_header-ok none header h = cc
secret_header-ok (some secret) header h = elim (Bool-cases (truthy secret)) [
  | inl present ↦ (secret, refl, present, sym (ok-injective (rw present at h)))
  | inr empty ↦ let h' : err (http 503) ≡ ok header = rw empty at h in cc
]

-- A service with credentials is never called without them: if its variable has a name and a header is
-- built, then the name has the prefix, the variable is set and not empty, and the header is the basic
-- authorization of its value.
pub upstream_auth_header_fails_closed :
    (env : String → Option String) (service : Service) (name : String) (header : Dict String)
    → service.upstream_auth_env ≡ some name
    → truthy name ≡ true
    → upstream_auth_header env service ≡ ok header
    → (secret : String) × (starts_with name secret_prefix ≡ true)
      × (env name ≡ some secret)
      × (truthy secret ≡ true)
      × (header ≡ ("Authorization", concat ("Basic " ∷ base64 (encode secret) ∷ [])) ∷ [])
unfolding upstream_auth_header
upstream_auth_header_fails_closed env service name header e named h =
    let h' : named_header env name ≡ ok header = rw (e, upstream_auth_header) at h in
    let h'' : (if starts_with name secret_prefix then secret_header (env name) else err (http 503))
        ≡ ok header =
      rw named at h' in
    elim (Bool-cases (starts_with name secret_prefix)) [
      | inl own ↦
          let (secret, a, b, c) = secret_header-ok (env name) header (rw own at h'') in
          (secret, own, a, b, c)
      | inr foreign ↦ let h3 : err (http 503) ≡ ok header = rw foreign at h'' in cc
    ]
