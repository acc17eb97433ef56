-- ===== src/Metrics/Render.antt =====
-- `render` of app/metrics.py: the counters as Prometheus' text. How Python shows a bound and a sum in
-- seconds are the parameters `show_bound` and `show_sum`.
use Prim.Native.Nat.{Ordering}
use Prim.Native.String.{compare}
use masterportal_admin.Base.{ℕ, String, List, [], ◌∷◌, ◌++◌, map}
use masterportal_admin.Base.Text.{decimal, concat}
use masterportal_admin.Metrics.{Metrics}

abbrev pub Count : Type 0
Count = (String × String) × ℕ

-- Where a count stands among the others: by its method, then by its status, of which no two are
-- the same.
unfoldable pub insert_count : Count → List Count → List Count
insert_count c [] = c ∷ []
insert_count c (d ∷ counts) =
    let rest = insert_count c counts in
    elim (compare (c.0).0 (d.0).0) [
      | Ordering.lt ↦ c ∷ d ∷ counts
      | Ordering.gt ↦ d ∷ rest
      | Ordering.eq ↦ elim (compare (c.0).1 (d.0).1) [ Ordering.gt ↦ d ∷ rest | _ ↦ c ∷ d ∷ counts ]
    ]

-- `sorted(self._count.items())`
unfoldable pub sorted_counts : List Count → List Count
sorted_counts [] = []
sorted_counts (c ∷ counts) = insert_count c (sorted_counts counts)

abbrev pub count_line : Count → String
count_line ((method, status), n) =
    concat
      ("http_requests_total{method=\"" ∷ method ∷ "\",status=\"" ∷ status ∷ "\"} " ∷ decimal n ∷ [])

-- `"\n".join(lines) + "\n"`
abbrev pub joined_lines : List String → String
joined_lines [] = ""
joined_lines (line ∷ lines) = concat (line ∷ "\n" ∷ joined_lines lines ∷ [])

module _ (show_bound show_sum : ℕ → String) where
  abbrev pub bucket_line : ℕ × ℕ → String
  bucket_line (b, n) =
      concat ("http_request_duration_seconds_bucket{le=\"" ∷ show_bound b ∷ "\"} " ∷ decimal n ∷ [])

  abbrev pub lines_of : Metrics → List String
  lines_of m =
      "# HELP http_requests_total Total HTTP requests."
        ∷ "# TYPE http_requests_total counter"
        ∷ map count_line (sorted_counts m.count)
      ++ "# HELP http_request_duration_seconds HTTP request latency."
        ∷ "# TYPE http_request_duration_seconds histogram"
        ∷ map bucket_line m.bucket
      ++ concat ("http_request_duration_seconds_bucket{le=\"+Inf\"} " ∷ decimal m.total ∷ [])
        ∷ concat ("http_request_duration_seconds_sum " ∷ show_sum m.sum ∷ [])
        ∷ concat ("http_request_duration_seconds_count " ∷ decimal m.total ∷ [])
        ∷ []

  unfoldable pub render : Metrics → String
  unfolding insert_count sorted_counts
  render m = joined_lines (lines_of m)
