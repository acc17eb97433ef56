-- ===== src/RateLimit/Log.antt =====
-- The specification of a sliding window: the accepted requests, oldest first, and the rule that a
-- request is accepted if fewer than `limit` of the caller's lie in the window before it.
use masterportal_admin.Base.{
  ℕ, ◌+◌, ◌≤◌, String, Bool, true, ltb, ◌&&◌, ◌==◌, eq_iff, if◌then◌else◌, List, [], ◌∷◌, ◌++◌, ◌≡◌,
  arith, length, length-append, Bool-cases, inl, inr,
}
use mathlib.Core.List.{append-nil}

-- The times of the caller's requests that are not older than the window at the time `now`.
unfoldable pub recent : ℕ → ℕ → String → List (String × ℕ) → List ℕ
recent window now k [] = []
recent window now k ((j, t) ∷ log) =
    let rest = recent window now k log in if j == k && ltb now (t + window) then t ∷ rest else rest

abbrev pub accepts : ℕ → ℕ → String → ℕ → List (String × ℕ) → Bool
accepts limit window k now log = ltb (length (recent window now k log)) limit

-- The log after a request.
abbrev pub record_request : ℕ → ℕ → String → ℕ → List (String × ℕ) → List (String × ℕ)
record_request limit window k now log =
    if accepts limit window k now log then log ++ (k, now) ∷ [] else log

pub recent-append :
    (window now : ℕ) (k j : String) (t : ℕ) (log : List (String × ℕ))
    → recent window now k (log ++ (j, t) ∷ [])
      ≡ recent window now k log ++ (if j == k && ltb now (t + window) then t ∷ [] else [])
unfolding recent
recent-append window now k j t [] = ground arith
recent-append window now k j t ((i, x) ∷ log) = ground (arith, recent-append window now k j t log)

length-recent-later :
    (window now later : ℕ) (k : String) (log : List (String × ℕ))
    → now ≤ later
    → length (recent window later k log) ≤ length (recent window now k log)
unfolding recent
length-recent-later window now later k [] h = omega arith
length-recent-later window now later k ((j, t) ∷ log) h =
    ground (arith, length-recent-later window now later k log h)

-- At every time from `since` on, no caller has more than `limit` accepted requests in the window.
abbrev pub IsLimited : ℕ → ℕ → ℕ → List (String × ℕ) → Type 0
IsLimited limit window since log =
    (k : String) (now : ℕ) → since ≤ now → length (recent window now k log) ≤ limit

-- An accepted request leaves room for itself.
one_more :
    (limit window : ℕ) (k : String) (now : ℕ) (j : String) (later : ℕ) (log : List (String × ℕ))
    → now ≤ later
    → accepts limit window k now log ≡ true
    → length (recent window later j log) ≤ limit
    → length
        (recent window later j log ++ (if k == j && ltb later (now + window) then now ∷ [] else []))
      ≤ limit
one_more limit window k now j later log h fits bound =
    elim (Bool-cases (k == j && ltb later (now + window))) [
      | inl here ↦
          rw (here, length-append)
            (let same : k ≡ j = ground (arith, eq_iff k j) in
              rw (← same) (ground (arith, length-recent-later window now later k log h)))
      | inr elsewhere ↦ rw (elsewhere, append-nil) bound
    ]

pub record_request-IsLimited :
    (limit window : ℕ) (k : String) (since now : ℕ) (log : List (String × ℕ))
    → since ≤ now
    → IsLimited limit window since log
    → IsLimited limit window now (record_request limit window k now log)
record_request-IsLimited limit window k since now log h limited j later hl =
    elim (Bool-cases (accepts limit window k now log)) [
      | inl fits ↦ rw fits (
          rw (recent-append window later j k now log)
            (one_more limit window k now j later log hl fits (limited j later (omega arith))))
      | inr full ↦ rw full (limited j later (omega arith))
    ]
