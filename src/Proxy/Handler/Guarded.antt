-- ===== src/Proxy/Handler/Guarded.antt =====
-- What the handlers send upstream.
use masterportal_admin.Base.{
  ℕ, ◌≤◌, String, true, false, ◌==◌, Option, none, some, List, [], ◌∷◌, ◌++◌, Result, ok, err, http,
  >>=-eq-ok, Result-cases, ok-injective, ◌≡◌, refl, arith, length, ltb, Bool-cases, inl, inr,
}
use masterportal_admin.Base.Dict
use masterportal_admin.Base.Dict.{Dict}
use masterportal_admin.Base.Text.{truthy}
use masterportal_admin.Json.{Fields}
use masterportal_admin.Db.{Db, Service}
use masterportal_admin.Proxy.Authorize.{load_service}
use masterportal_admin.Proxy.Secret.{upstream_auth_header, upstream_base}
use masterportal_admin.Proxy.Subpath.{join_subpath}
use masterportal_admin.Proxy.Upstream.{HostCache, assert_allowed_upstream}
use masterportal_admin.Proxy.Body.{is_transaction, read_capped, read_capped_body}
use masterportal_admin.Proxy.Handler.{
  ClientRequest, UpstreamRequest, Surroundings, headers_of, or_default, is_refused, post_of,
  body_of, build_request, checked, proxy_service, proxy,
}

read_capped-le :
    (max_bytes : ℕ) (start : List ℕ) (chunks : List (List ℕ)) (body : List ℕ)
    → length start ≤ max_bytes
    → read_capped max_bytes start chunks ≡ ok body
    → length body ≤ max_bytes
unfolding read_capped
read_capped-le max_bytes start [] body fits h = rw (← ok-injective h) fits
read_capped-le max_bytes start (chunk ∷ chunks) body fits h =
    elim (Bool-cases (ltb max_bytes (length (start ++ chunk)))) [
      | inl over ↦ let h' : err (http 413) ≡ ok body = rw over at h in cc
      | inr within ↦
          read_capped-le max_bytes (start ++ chunk) chunks body (ground arith) (rw within at h)
    ]

-- What a request upstream may carry in its body and its headers.
abbrev pub Sent :
    ℕ → Service → String → ClientRequest → Dict String → Option (List ℕ) × Dict String → Type 0
Sent max_bytes service subpath request headers (none, sent) =
    ((request.method == "POST") ≡ false) × (sent ≡ headers)
Sent max_bytes service subpath request headers (some body, sent) =
    ((request.method == "POST") ≡ true)
    × (length body ≤ max_bytes)
    × (service.allow_transactions ≡ false
        → (truthy subpath ≡ false) × (is_transaction body ≡ false))
    × (sent ≡ Dict.set "Content-Type" (or_default "application/xml" request.content_type) headers)

post_of-Sent :
    (max_bytes : ℕ) (service : Service) (subpath : String) (request : ClientRequest)
    (headers : Dict String) (body : List ℕ) (sent : Option (List ℕ) × Dict String)
    → (request.method == "POST") ≡ true
    → length body ≤ max_bytes
    → post_of service subpath request headers body ≡ ok sent
    → Sent max_bytes service subpath request headers sent
post_of-Sent max_bytes service subpath request headers body sent post fits h =
    elim (Bool-cases (is_refused service subpath body)) [
      | inl refused ↦ let h' : err (http 403) ≡ ok sent = rw refused at h in cc
      | inr allowed ↦
          rw (← ok-injective (rw allowed at h)) (post, fits, λ read_only. ground arith, refl)
    ]

body_of-Sent :
    (max_bytes : ℕ) (service : Service) (subpath : String) (request : ClientRequest)
    (headers : Dict String) (sent : Option (List ℕ) × Dict String)
    → body_of max_bytes service subpath request headers ≡ ok sent
    → Sent max_bytes service subpath request headers sent
unfolding body_of read_capped_body
body_of-Sent max_bytes service subpath request headers sent h =
    elim (Bool-cases (request.method == "POST")) [
      | inr other ↦ rw (← ok-injective (rw other at h)) (other, refl)
      | inl post ↦
          let (body, got, h') =
            >>=-eq-ok (read_capped_body max_bytes request.chunks)
              (post_of service subpath request headers) (rw post at h) in
          post_of-Sent max_bytes service subpath request headers body sent post
            (read_capped-le max_bytes [] request.chunks body (omega arith) got) h'
    ]

module _ (s : Surroundings) where
  build_request-Sent :
      (service : Service) (base subpath : String) (request : ClientRequest) (sent : UpstreamRequest)
      → build_request s service base subpath request ≡ ok sent
      → (auth : Dict String) × (join_subpath base subpath ≡ ok sent.target)
        × (upstream_auth_header s.env service ≡ ok auth)
        × Sent s.max_request_bytes service subpath request
            (headers_of request.accept auth)
            (sent.body, sent.headers)
  build_request-Sent service base subpath request sent h =
      let (target, joined, h1) = >>=-eq-ok (join_subpath base subpath) _ h in
      let (auth, signed, h2) = >>=-eq-ok (upstream_auth_header s.env service) _ h1 in
      let ((body, headers), got, h3) =
        >>=-eq-ok
          (body_of s.max_request_bytes service subpath request (headers_of request.accept auth)) _
          h2 in
      let e = ok-injective h3 in
      rw (← e) (
        auth,
        joined,
        signed,
        body_of-Sent s.max_request_bytes service subpath request (headers_of request.accept auth)
            (body, headers) got,
      )

  checked-ok :
      (cache : HostCache) (now : ℕ) (url : String) (rest : Result UpstreamRequest)
      (sent : UpstreamRequest)
      → (checked s cache now url rest).0 ≡ ok sent
      → ((assert_allowed_upstream s.second s.allow_private s.resolve s.hostname cache now url).0
          ≡ ok tt)
        × (rest ≡ ok sent)
  checked-ok cache now url rest sent h =
      let (done, allowed, h') =
        >>=-eq-ok
          (assert_allowed_upstream s.second s.allow_private s.resolve s.hostname cache now url).0 _
          h in
      (allowed, h')

  -- If the proxy sends a request upstream, then the service is one that the caller may use, its host
  -- was allowed, the target is the service's base joined with the sub-path, the headers are the
  -- service's own credentials beside the caller's `Accept`, and the body is that of a POST: within
  -- the size cap, and sent to a service without transactions only if it is no transaction and goes to
  -- no sub-path.
  pub proxy_guarded :
      (db : Db) (cache : HostCache) (now : ℕ) (key subpath : String) (user : Option Fields)
      (request : ClientRequest) (sent : UpstreamRequest)
      → (proxy s db cache now key subpath user request).0 ≡ ok sent
      → (service : Service) × (base : String) × (auth : Dict String) × (load_service db key user
          ≡ ok service)
        × (upstream_base service ≡ ok base)
        × ((assert_allowed_upstream s.second s.allow_private s.resolve s.hostname cache now base).0
            ≡ ok tt)
        × (join_subpath base subpath ≡ ok sent.target)
        × (upstream_auth_header s.env service ≡ ok auth)
        × Sent s.max_request_bytes service subpath request
            (headers_of request.accept auth)
            (sent.body, sent.headers)
  unfolding proxy
  proxy_guarded db cache now key subpath user request sent h =
      elim (Result-cases (load_service db key user)) [
        | inr (e, failed) ↦ let h' : err e ≡ ok sent = rw (failed, proxy) at h in cc
        | inl (service, loaded) ↦
            let h1 : (proxy_service s cache now subpath request service).0 ≡ ok sent =
              rw (loaded, proxy) at h in
            elim (Result-cases (upstream_base service)) [
              | inr (e, failed) ↦ let h' : err e ≡ ok sent = rw (failed, proxy_service) at h1 in cc
              | inl (base, pinned) ↦
                  let (allowed, built) =
                    checked-ok cache now base (build_request s service base subpath request) sent
                      (rw (pinned, proxy_service) at h1) in
                  let (auth, joined, signed, carried) =
                    build_request-Sent service base subpath request sent built in
                  (service, base, auth, loaded, pinned, allowed, joined, signed, carried)
            ]
      ]
