-- ===== src/Metrics.antt =====
-- app/metrics.py: the counters of requests. Durations are whole numbers of ticks, and `bounds` has
-- the upper bounds of the buckets in them.
pub mod Render
mod Tests
use masterportal_admin.Base.{
  ℕ, suc, ◌+◌, ◌≤◌, String, Bool, true, false, ◌&&◌, leb, eqb, List, [], ◌∷◌, ◌++◌, length, keep,
  if◌then◌else◌, ◌≡◌, refl, sym, ap, ◌∙◌, arith, ◌==◌,
}
use masterportal_admin.Base.Text.{decimal, concat}
use masterportal_admin.Base.Dict
use masterportal_admin.Base.Dict.{Dict}

-- The counts by method and status, under one text for both; each bucket with its bound.
pub record Metrics : Type 0 where
  pub count : List ((String × String) × ℕ)
  pub bucket : List (ℕ × ℕ)
  pub sum : ℕ
  pub total : ℕ

-- No request yet: the buckets of a `defaultdict` read as 0.
unfoldable pub empty_buckets : List ℕ → List (ℕ × ℕ)
empty_buckets [] = []
empty_buckets (b ∷ bounds) = (b, 0) ∷ empty_buckets bounds

abbrev pub init : List ℕ → Metrics
init bounds = record { count = []; bucket = empty_buckets bounds; sum = 0; total = 0 }

-- `self._count[(method, status)] += 1`
unfoldable pub count_up :
    String → String → List ((String × String) × ℕ) → List ((String × String) × ℕ)
count_up method status [] = ((method, status), 1) ∷ []
count_up method status (((m, s), n) ∷ rest) =
    if m == method && s == status
    then ((m, s), suc n) ∷ rest
    else ((m, s), n) ∷ count_up method status rest

-- `if duration_s <= b: self._bucket[b] += 1`, for each bound.
unfoldable pub fill : ℕ → List (ℕ × ℕ) → List (ℕ × ℕ)
fill duration [] = []
fill duration ((b, n) ∷ buckets) =
    let rest = fill duration buckets in (b, if leb duration b then suc n else n) ∷ rest

unfoldable pub observe : String → ℕ → ℕ → Metrics → Metrics
unfolding count_up fill
observe method status duration m = record {
  count = count_up method (decimal status) m.count;
  bucket = fill duration m.bucket;
  sum = m.sum + duration;
  total = suc m.total;
}

-- The requests observed one after the other, each with its method, status and duration.
unfoldable pub observe_all : List (String × ℕ × ℕ) → Metrics → Metrics
observe_all [] m = m
observe_all ((method, status, duration) ∷ requests) m =
    observe_all requests (observe method status duration m)

-- How many durations are at most `b`.
abbrev pub within : ℕ → List (String × ℕ × ℕ) → ℕ
within b [] = 0
within b ((method, status, duration) ∷ requests) =
    let rest = within b requests in if leb duration b then suc rest else rest

-- The buckets, each raised by the number of the durations that it bounds.
abbrev pub raised : List (String × ℕ × ℕ) → List (ℕ × ℕ) → List (ℕ × ℕ)
raised requests [] = []
raised requests ((b, n) ∷ buckets) = (b, n + within b requests) ∷ raised requests buckets

raised-fill :
    (method : String) (status duration : ℕ) (requests : List (String × ℕ × ℕ))
    (buckets : List (ℕ × ℕ))
    → raised requests (fill duration buckets)
      ≡ raised ((method, status, duration) ∷ requests) buckets
unfolding fill
raised-fill method status duration requests [] = refl
raised-fill method status duration requests ((b, n) ∷ buckets) =
    ground (arith, raised-fill method status duration requests buckets)

raised_none : (buckets : List (ℕ × ℕ)) → buckets ≡ raised [] buckets
raised_none [] = refl
raised_none ((b, n) ∷ buckets) = ground (arith, raised_none buckets)

bucket-observe_all :
    (requests : List (String × ℕ × ℕ)) (m : Metrics)
    → ((observe_all requests m).bucket ≡ raised requests m.bucket)
      × ((observe_all requests m).total ≡ m.total + length requests)
unfolding observe_all observe
bucket-observe_all [] m = (raised_none m.bucket, omega arith)
bucket-observe_all ((method, status, duration) ∷ requests) m =
    let (a, b) = bucket-observe_all requests (observe method status duration m) in
    (a ∙ raised-fill method status duration requests m.bucket, omega (arith, b))

within-le :
    (b c : ℕ) (requests : List (String × ℕ × ℕ)) → b ≤ c → within b requests ≤ within c requests
within-le b c [] h = omega arith
within-le b c ((method, status, duration) ∷ requests) h = ground (arith, within-le b c requests h)

within-length : (b : ℕ) (requests : List (String × ℕ × ℕ)) → within b requests ≤ length requests
within-length b [] = omega arith
within-length b ((method, status, duration) ∷ requests) = ground (arith, within-length b requests)

-- After any requests, each bucket counts exactly the requests whose duration is at most its bound,
-- the total counts all of them, and a bucket with a larger bound never counts fewer.
pub observe_all-cumulative :
    (bounds : List ℕ) (requests : List (String × ℕ × ℕ))
    → ((observe_all requests (init bounds)).bucket ≡ raised requests (empty_buckets bounds))
      × ((observe_all requests (init bounds)).total ≡ length requests)
      × ((b c : ℕ) → b ≤ c → within b requests ≤ within c requests)
      × ((b : ℕ) → within b requests ≤ length requests)
observe_all-cumulative bounds requests =
    let (a, b) = bucket-observe_all requests (init bounds) in
    (a, omega (arith, b), λ b c h. within-le b c requests h, λ b. within-length b requests)
