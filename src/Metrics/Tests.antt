-- ===== src/Metrics/Tests.antt =====
-- The counters at three requests.
use masterportal_admin.Base.Text.{decimal}
use masterportal_admin.Metrics.Render.{lines_of, sorted_counts, insert_count}
use masterportal_admin.Base.{ℕ, ◌≤◌, String, List, [], ◌∷◌, ◌≡◌, refl, length}
use masterportal_admin.Metrics.{
  observe_all, observe, init, raised, empty_buckets, within, observe_all-cumulative,
}

abbrev requests : List (String × ℕ × ℕ)
requests = ("GET", 200, 4) ∷ ("GET", 404, 20) ∷ ("POST", 200, 900) ∷ []

observed :
    (observe_all requests (init (5 ∷ 25 ∷ 100 ∷ []))).bucket ≡ (5, 1) ∷ (25, 2) ∷ (100, 2) ∷ []
unfolding observe_all observe empty_buckets
observed = refl

observe_all-cumulative_example :
    ((observe_all requests (init (5 ∷ 25 ∷ 100 ∷ []))).bucket
      ≡ raised requests (empty_buckets (5 ∷ 25 ∷ 100 ∷ [])))
    × ((observe_all requests (init (5 ∷ 25 ∷ 100 ∷ []))).total ≡ length requests)
    × ((b c : ℕ) → b ≤ c → within b requests ≤ within c requests)
    × ((b : ℕ) → within b requests ≤ length requests)
observe_all-cumulative_example = observe_all-cumulative (5 ∷ 25 ∷ 100 ∷ []) requests

abbrev seconds : ℕ → String
seconds n = decimal n

-- The counts are sorted by method and status.
rendered :
    lines_of seconds seconds (observe "GET" 200 3 (observe "GET" 404 7 (init (5 ∷ []))))
    ≡ "# HELP http_requests_total Total HTTP requests." ∷ "# TYPE http_requests_total counter"
      ∷ "http_requests_total{method=\"GET\",status=\"200\"} 1"
      ∷ "http_requests_total{method=\"GET\",status=\"404\"} 1"
      ∷ "# HELP http_request_duration_seconds HTTP request latency."
      ∷ "# TYPE http_request_duration_seconds histogram"
      ∷ "http_request_duration_seconds_bucket{le=\"5\"} 1"
      ∷ "http_request_duration_seconds_bucket{le=\"+Inf\"} 2"
      ∷ "http_request_duration_seconds_sum 10" ∷ "http_request_duration_seconds_count 2" ∷ []
unfolding observe decimal sorted_counts insert_count empty_buckets
rendered = refl
