-- ===== src/Proxy/Handler.antt =====
-- The handlers `proxy` and `legend` of app/proxy.py, up to the request that they send upstream.
pub mod Guarded
use masterportal_admin.Base.{
  ℕ, String, Bool, true, false, ◌&&◌, ◌||◌, not, ◌==◌, Option, none, some, List, [], ◌∷◌, Result,
  ok, err, http, ◌>>=◌, if◌then◌else◌, get_elem?,
}
use masterportal_admin.Base.Bytes.{encode}
use masterportal_admin.Base.Dict
use masterportal_admin.Base.Dict.{Dict}
use masterportal_admin.Base.Int.{ℤ, pos, negsuc}
use masterportal_admin.Base.Text.{truthy, concat}
use masterportal_admin.Json.{Fields}
use masterportal_admin.Db.{Db, Service}
use masterportal_admin.Source.Legend.{geo_url, legend_urls_of}
use masterportal_admin.Proxy.Authorize.{load_service}
use masterportal_admin.Proxy.Secret.{upstream_auth_header, upstream_base}
use masterportal_admin.Proxy.Subpath.{join_subpath}
use masterportal_admin.Proxy.Upstream.{Address, HostCache, assert_allowed_upstream}
use masterportal_admin.Proxy.Body.{is_transaction, read_capped_body}

-- What the handler reads of the client's request.
pub record ClientRequest : Type 0 where
  pub method : String
  pub accept : Option String
  pub content_type : Option String
  pub query : String
  pub chunks : List (List ℕ)

-- What it sends, and the replacements in the answer.
pub record UpstreamRequest : Type 0 where
  pub method : String
  pub target : String
  pub query : String
  pub headers : Dict String
  pub body : Option (List ℕ)
  pub rewrites : List (List ℕ × List ℕ)

-- The settings, and what the process asks of its surroundings: `env` is `os.environ.get`, `hostname`
-- and `origin` the parts of `urlsplit`.
pub record Surroundings : Type 0 where
  pub base : String
  pub second : ℕ
  pub allow_private : Bool
  pub max_request_bytes : ℕ
  pub env : String → Option String
  pub resolve : String → Option (List Address)
  pub hostname : String → Option String
  pub origin : String → String

abbrev pub or_default : String → Option String → String
or_default default none = default
or_default default (some s) = s

-- `{"Accept": …, **auth}`
abbrev pub headers_of : Option String → Dict String → Dict String
headers_of accept auth = ("Accept", or_default "*/*" accept) ∷ auth

-- `not service.allow_transactions and (subpath or _is_transaction(body))`
abbrev pub is_refused : Service → String → List ℕ → Bool
is_refused service subpath body =
    not service.allow_transactions && (truthy subpath || is_transaction body)

abbrev pub post_of :
    Service → String → ClientRequest → Dict String → List ℕ → Result (Option (List ℕ) × Dict String)
post_of service subpath request headers body =
    if is_refused service subpath body
    then err (http 403)
    else ok (
      some body,
      Dict.set "Content-Type" (or_default "application/xml" request.content_type) headers,
    )

-- The body and the headers: of a POST, the client's body and its content type.
unfoldable pub body_of :
    ℕ → Service → String → ClientRequest → Dict String → Result (Option (List ℕ) × Dict String)
body_of max_bytes service subpath request headers =
    if request.method == "POST"
    then read_capped_body max_bytes request.chunks >>= post_of service subpath request headers
    else ok (none, headers)

-- `rewrites`: the pinned base, and its origin if that is another text.
abbrev pub rewrites_of : (String → String) → String → String → List (List ℕ × List ℕ)
rewrites_of origin proxy_base base =
    if origin base == base
    then (encode base, encode proxy_base) ∷ []
    else (encode base, encode proxy_base) ∷ (encode (origin base), encode proxy_base) ∷ []

module _ (s : Surroundings) where
  -- From the target on.
  abbrev pub build_request : Service → String → String → ClientRequest → Result UpstreamRequest
  build_request service base subpath request = do
    target ← join_subpath base subpath
    auth ← upstream_auth_header s.env service
    (body, headers) ←
        body_of s.max_request_bytes service subpath request (headers_of request.accept auth)
    ok record {
      method = request.method;
      target = target;
      query = request.query;
      headers = headers;
      body = body;
      rewrites = rewrites_of s.origin (geo_url s.base service.key) base;
    }

  -- `_assert_allowed_upstream(url)` before the rest, whose answer keeps the cache.
  abbrev pub checked :
      HostCache → ℕ → String → Result UpstreamRequest → Result UpstreamRequest × HostCache
  checked cache now url rest =
      let (allowed, cache') =
        assert_allowed_upstream s.second s.allow_private s.resolve s.hostname cache now url in
      (allowed >>= λ done. rest, cache')

  abbrev pub proxy_service :
      HostCache → ℕ → String → ClientRequest → Service → Result UpstreamRequest × HostCache
  proxy_service cache now subpath request service = elim (upstream_base service) [
    | err e ↦ (err e, cache)
    | ok base ↦ checked cache now base (build_request service base subpath request)
  ]

  unfoldable pub proxy :
      Db
      → HostCache
      → ℕ
      → String
      → String
      → Option Fields
      → ClientRequest
      → Result UpstreamRequest × HostCache
  proxy db cache now key subpath user request = elim (load_service db key user) [
    | err e ↦ (err e, cache)
    | ok service ↦ proxy_service cache now subpath request service
  ]

  abbrev pub legend_request : Service → String → Result UpstreamRequest
  legend_request service url = do
    auth ← upstream_auth_header s.env service
    ok record {
      method = "GET";
      target = url;
      query = "";
      headers = headers_of none auth;
      body = none;
      rewrites = [];
    }

  -- `urls[idx]`, for `0 <= idx < len(urls)`
  abbrev pub legend_at : List String → ℤ → Option String
  legend_at urls (pos i) = get_elem? urls i
  legend_at urls (negsuc i) = none

  unfoldable pub legend :
      Db → HostCache → ℕ → String → ℤ → Option Fields → Result UpstreamRequest × HostCache
  legend db cache now key idx user = elim (load_service db key user) [
    | err e ↦ (err e, cache)
    | ok service ↦ elim (legend_at (legend_urls_of service.attrs) idx) [
      | none ↦ (err (http 404), cache)
      | some url ↦ checked cache now url (legend_request service url)
    ]
  ]
