-- ===== src/Proxy/Upstream/Fresh.antt =====
-- How old the decision about a host may be.
use masterportal_admin.Base.{
  ℕ, ◌+◌, ◌*◌, ◌≤◌, String, List, Bool, true, false, Option, none, some, Result, ok, if◌then◌else◌,
  ◌≡◌, refl, sym, ◌∙◌, ap, arith, ◌==◌, eq_iff, Bool-cases, inl, inr,
}
use masterportal_admin.Base.Dict
use masterportal_admin.Proxy.Upstream.{
  Address, HostCache, host_is_public, host_cache_ttl, is_stale, verdict, cached_or,
  assert_allowed_host,
}

-- Every cached decision is what the resolver gave at the time of its check.
abbrev pub IsSound : (ℕ → String → Option (List Address)) → HostCache → Type 0
IsSound resolve cache =
    (host : String) (allowed : Bool) (checked : ℕ)
    → Dict.get host cache ≡ some (allowed, checked)
    → allowed ≡ host_is_public (resolve checked host)

verdict_ok : (b : Bool) → verdict b ≡ ok tt → b ≡ true
verdict_ok true h = refl
verdict_ok false h = cc

some_pair : (p q : Bool × ℕ) → some p ≡ some q → (p.0 ≡ q.0) × (p.1 ≡ q.1)
some_pair p q h = let e : p ≡ q = cc in (ap (λ r. r.0) e, ap (λ r. r.1) e)

module _ (second : ℕ) (resolve : ℕ → String → Option (List Address)) (cache : HostCache) (now : ℕ)
    (host : String) where
  abbrev decision : Result (Unit {0}) × HostCache
  decision = assert_allowed_host second false (resolve now) cache now host

  fresh_entry :
      (o : Option (Bool × ℕ))
      → Dict.get host cache ≡ o
      → is_stale second now o ≡ false
      → IsSound resolve cache
      → cached_or false o ≡ true
      → (checked : ℕ) × (now ≤ checked + host_cache_ttl * second)
        × (host_is_public (resolve checked host) ≡ true)
  unfolding is_stale
  fresh_entry none e stale sound allowed = cc
  fresh_entry (some (b, checked)) e fresh sound allowed =
      (checked, ground arith, sym (sound host b checked e) ∙ allowed)

  set-IsSound :
      IsSound resolve cache
      → IsSound resolve (Dict.set host (host_is_public (resolve now host), now) cache)
  set-IsSound sound other b checked e = elim (Bool-cases (host == other)) [
    | inr apart ↦ sound other b checked (rw (Dict.get-set host other _ cache, apart) at e)
    | inl same ↦
        let v : Bool × ℕ = (host_is_public (resolve now host), now) in
        let e' : some v ≡ some (b, checked) =
          sym (
            Dict.get-set host other v cache
            ∙ ap (λ t. if t then some v else Dict.get other cache) same)
          ∙ e in
        let (xb, tc) = some_pair v (b, checked) e' in
        sym xb
        ∙ ap (λ h. host_is_public (resolve now h)) ((eq_iff host other).0 same)
        ∙ ap (λ t. host_is_public (resolve t other)) tc
  ]

  -- If the guard lets a host pass, where private upstreams are not allowed and the cache is sound, the
  -- host resolved to public addresses alone at a time at most 300 seconds before; and the cache is
  -- sound after it.
  pub assert_allowed_host_fresh :
      IsSound resolve cache
      → ((assert_allowed_host second false (resolve now) cache now host).0 ≡ ok tt
          → (checked : ℕ) × (now ≤ checked + 300 * second)
            × (host_is_public (resolve checked host) ≡ true))
        × IsSound resolve (assert_allowed_host second false (resolve now) cache now host).1
  unfolding assert_allowed_host host_cache_ttl
  assert_allowed_host_fresh sound = elim (Bool-cases (is_stale second now (Dict.get host cache))) [
    | inl stale ↦ rw stale (λ h. (now, omega arith, verdict_ok _ h), set-IsSound sound)
    | inr fresh ↦
        rw fresh (λ h. fresh_entry (Dict.get host cache) refl fresh sound (verdict_ok _ h), sound)
  ]
