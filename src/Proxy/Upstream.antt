-- ===== src/Proxy/Upstream.antt =====
-- `_host_is_public` and `_assert_allowed_upstream` of app/proxy.py. The resolver, the classes of
-- `ipaddress` and `urlsplit(url).hostname` are parameters; the readings of the clock are whole ticks.
pub mod Fresh
use masterportal_admin.Base.{
  ℕ, ◌+◌, ◌*◌, ◌≤◌, String, Bool, true, false, ◌&&◌, ◌||◌, not, ltb, leb, Option, none, some, List,
  [], ◌∷◌, Result, ok, err, http, if◌then◌else◌, any, ◌≡◌, refl, arith, ◌==◌, Bool-cases, inl, inr,
}
use masterportal_admin.Base.Dict
use masterportal_admin.Base.Dict.{Dict}

-- What `ipaddress.ip_address` says of an address.
pub record Address : Type 0 where
  pub is_private : Bool
  pub is_loopback : Bool
  pub is_link_local : Bool
  pub is_reserved : Bool
  pub is_multicast : Bool
  pub is_unspecified : Bool
  pub is_shared : Bool
  pub is_version_6 : Bool
  pub maps_to_shared : Option Bool

-- `ip.version == 6 and ip.ipv4_mapped is not None and ip.ipv4_mapped in …`
abbrev pub is_mapped_shared : Address → Bool
is_mapped_shared ip =
    ip.is_version_6 && (elim ip.maps_to_shared [ none ↦ false | some shared ↦ shared ])

unfoldable pub is_denied : Address → Bool
is_denied ip =
    ip.is_private
    || ip.is_loopback
    || ip.is_link_local
    || ip.is_reserved
    || ip.is_multicast
    || ip.is_unspecified
    || ip.is_shared
    || is_mapped_shared ip

-- The resolver returns nothing for a host that it cannot resolve.
unfoldable pub host_is_public : Option (List Address) → Bool
host_is_public none = false
host_is_public (some []) = false
host_is_public (some (ip ∷ ips)) = not (any is_denied (ip ∷ ips))

-- The cached decisions, each with the time of its check.
abbrev pub HostCache : Type 0
HostCache = Dict (Bool × ℕ)

-- `_HOST_CACHE_TTL`, in seconds.
unfoldable pub host_cache_ttl : ℕ
host_cache_ttl = 300

-- `cached is None or now - cached[1] > _HOST_CACHE_TTL`
unfoldable pub is_stale : ℕ → ℕ → Option (Bool × ℕ) → Bool
unfolding host_cache_ttl
is_stale second now none = true
is_stale second now (some (allowed, checked)) = ltb (checked + host_cache_ttl * second) now

abbrev verdict : Bool → Result (Unit {0})
verdict true = ok tt
verdict false = err (http 502)

abbrev cached_or : Bool → Option (Bool × ℕ) → Bool
cached_or fresh none = fresh
cached_or fresh (some (allowed, checked)) = allowed

module _ (second : ℕ) (allow_private : Bool) (resolve : String → Option (List Address)) where
  -- The decision for a host at the time `now`, and the cache after it.
  unfoldable pub assert_allowed_host : HostCache → ℕ → String → Result (Unit {0}) × HostCache
  assert_allowed_host cache now host =
      if allow_private
      then (ok tt, cache)
      else if is_stale second now (Dict.get host cache)
      then (
        verdict (host_is_public (resolve host)),
        Dict.set host (host_is_public (resolve host), now) cache,
      )
      else (verdict (cached_or false (Dict.get host cache)), cache)

  unfoldable pub assert_allowed_upstream :
      (String → Option String) → HostCache → ℕ → String → Result (Unit {0}) × HostCache
  assert_allowed_upstream hostname cache now url =
      assert_allowed_host cache now (elim (hostname url) [ none ↦ "" | some h ↦ h ])
