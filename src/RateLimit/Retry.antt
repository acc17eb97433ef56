-- ===== src/RateLimit/Retry.antt =====
-- `Retry-After`: a refused caller that waits as long as it is told is accepted.
use masterportal_admin.Base.{
  ℕ, ◌+◌, ◌*◌, ◌≤◌, ◌<◌, String, Bool, true, false, ltb, List, ◌≡◌, sym, ◌∙◌, ap, arith, length, ok,
  ◌-◌, ◌/◌, refl, Bool-cases, leb, [], ◌∷◌, inl, inr,
}
use masterportal_admin.RateLimit.{SlidingWindow, check, decide}
use masterportal_admin.RateLimit.Log.{recent, accepts, IsLimited}
use masterportal_admin.RateLimit.Refinement.{
  Refines, accepted, check-Refines, window-check, dq, dq-recent, dq_bounded, dq_agrees,
}
use masterportal_admin.RateLimit.Bound.{waited}

lt→ltb : (a b : ℕ) → a < b → ltb a b ≡ true
lt→ltb a b h = ground arith

decide_returns :
    (second limit window now : ℕ) (dq : List ℕ)
    → 0 < limit
    → (b : Bool) × (n : ℕ) × ((decide second limit window now dq).0 ≡ ok (b, n))
unfolding decide
decide_returns second limit window now [] h = (true, 0, ground arith)
decide_returns second limit window now (t ∷ dq) h =
    elim (Bool-cases (leb limit (length (t ∷ dq)))) [
      | inl full ↦ (false, (window - (now - t)) / second + 1, rw full refl)
      | inr free ↦ (true, 0, rw free refl)
    ]

-- With a limit above 0 a check never raises.
pub check_returns :
    (second : ℕ) (w : SlidingWindow) (key : String) (now : ℕ)
    → 0 < w.limit
    → (b : Bool) × (n : ℕ) × ((check second w key now).0 ≡ ok (b, n))
unfolding check
check_returns second w key now h =
    decide_returns second w.limit w.window now (dq second w key now) h

module _ (second : ℕ) (w : SlidingWindow) (key : String) (now : ℕ) (log : List (String × ℕ)) (t : ℕ)
    (h : t ≤ now) (r : Refines w log t) (limited : IsLimited w.limit w.window t log)
    (second_pos : 0 < second) (limit_pos : 0 < w.limit) where
  -- If `check` refuses with `retry` seconds, and nobody else asks, the caller is accepted at every
  -- time that is at least `retry` seconds later.
  pub retry_accepted :
      (retry later : ℕ)
      → (check second w key now).0 ≡ ok (false, retry)
      → now + retry * second ≤ later
      → accepted (check second (check second w key now).1 key later).0 ≡ true
  retry_accepted retry later refused wait =
      let w' = (check second w key now).1 in
      let (decision, r') = check-Refines second w key now log t h r in
      let (same_window, same_limit) = window-check second w key now in
      let full : accepts w.limit w.window key now log ≡ false =
        sym decision ∙ ap accepted refused in
      let r'' : Refines w' log now = rw full at r' in
      let (accepted_later, _) = check-Refines second w' key later log now (omega arith) r'' in
      let few : length (recent w.window later key log) < w.limit =
        rw (← dq_agrees second w key now log t h r later (omega arith)) (
          waited second w.limit w.window now later (dq second w key now) retry second_pos limit_pos
            (dq_bounded second w key now log t h r)
            (rw (dq-recent second w key now log t h r) (limited key now h))
            (unfold check in refused) wait) in
      accepted_later ∙ rw (same_window, same_limit) (lt→ltb _ _ few)
