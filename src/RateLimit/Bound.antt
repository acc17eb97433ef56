-- ===== src/RateLimit/Bound.antt =====
-- A history of checks: the bound on accepted requests, and the waiting time of a refusal.
use masterportal_admin.Base.{
  ℕ, ◌+◌, ◌-◌, ◌*◌, ◌/◌, ◌≤◌, ◌<◌, String, true, false, leb, if◌then◌else◌, List, [], ◌∷◌, ◌++◌,
  ◌≡◌, refl, ap, arith, length, ok, All,
}
use masterportal_admin.Base.Dict
use masterportal_admin.RateLimit.{SlidingWindow, init, expire, decide, check}
use masterportal_admin.RateLimit.Log.{recent, IsLimited, record_request-IsLimited}
use masterportal_admin.RateLimit.Refinement.{Refines, accepted, check-Refines, window-check}
use native.Mathlib.Nat.{div-add-mod, mod-lt}

-- Checks one after the other: the window that they leave, and the log of the accepted ones.
unfoldable pub run :
    ℕ → SlidingWindow → List (String × ℕ) → List (String × ℕ) → SlidingWindow × List (String × ℕ)
run second w log [] = (w, log)
run second w log ((key, now) ∷ requests) =
    let (r, w') = check second w key now in
    run second w' (if accepted r then log ++ (key, now) ∷ [] else log) requests

-- The times never fall, from `t` on.
abbrev pub IsMonotone : ℕ → List (String × ℕ) → Type 0
IsMonotone t [] = Unit
IsMonotone t ((key, now) ∷ requests) = (t ≤ now) × IsMonotone now requests

abbrev pub last_time : ℕ → List (String × ℕ) → ℕ
last_time t [] = t
last_time t ((key, now) ∷ requests) = last_time now requests

run-IsLimited_from :
    (second : ℕ) (w : SlidingWindow) (log : List (String × ℕ)) (t : ℕ)
    (requests : List (String × ℕ))
    → Refines w log t
    → IsLimited w.limit w.window t log
    → IsMonotone t requests
    → IsLimited w.limit w.window (last_time t requests) (run second w log requests).1
unfolding run
run-IsLimited_from second w log t [] r l m = l
run-IsLimited_from second w log t ((key, now) ∷ requests) r l (h, m) =
    let (decision, r') = check-Refines second w key now log t h r in
    let (same_window, same_limit) = window-check second w key now in
    let w' = (check second w key now).1 in
    let log' = if accepted (check second w key now).0 then log ++ (key, now) ∷ [] else log in
    let limited : IsLimited w'.limit w'.window now log' =
      rw (same_window, same_limit, decision)
        (record_request-IsLimited w.limit w.window key t now log h l) in
    rw (same_window, same_limit) at
      (run-IsLimited_from second w' log' now requests (rw decision r') limited m)

pub Refines-init : (limit window t : ℕ) → Refines (init limit window t) [] t
Refines-init limit window t =
    unfold expire recent Dict.get_or in record { bounded = λ k. tt; agrees = λ k now h. refl }

-- From a new window, whatever the requests at times that never fall: at every time from the last on,
-- no caller has more than `limit` accepted requests within the window before it.
pub run-IsLimited :
    (second limit window t : ℕ) (requests : List (String × ℕ))
    → IsMonotone t requests
    → (k : String) (now : ℕ) → last_time t requests ≤ now
    → length (recent window now k (run second (init limit window t) [] requests).1) ≤ limit
run-IsLimited second limit window t requests m =
    run-IsLimited_from second (init limit window t) [] t requests (Refines-init limit window t)
      (λ k now h. unfold recent in omega arith) m

length-expire-le : (window later : ℕ) (dq : List ℕ) → length (expire window later dq) ≤ length dq
unfolding expire
length-expire-le window later [] = omega arith
length-expire-le window later (t ∷ dq) = ground (arith, length-expire-le window later dq)

-- `int(x / second) + 1` seconds are more than `x` ticks.
rounded_up : (x second : ℕ) → 0 < second → x ≤ (x / second + 1) * second
rounded_up x second h = omega (arith, div-add-mod x second, mod-lt x h)

-- The front of a full queue has expired when the stated seconds have passed.
pub waited :
    (second limit window now later : ℕ) (dq : List ℕ) (retry : ℕ)
    → 0 < second
    → 0 < limit
    → All (λ t. t ≤ now) dq
    → length dq ≤ limit
    → (decide second limit window now dq).0 ≡ ok (false, retry)
    → now + retry * second ≤ later
    → length (expire window later dq) < limit
unfolding decide expire
waited second limit window now later [] retry hs hl bounded fits refused wait = ground arith
waited second limit window now later (t ∷ dq) retry hs hl (old, bounded) fits refused wait =
    let x = window - (now - t) in
    let e : x / second + 1 ≡ retry = ground arith in
    let passed : leb (t + window) later ≡ true =
      ground (arith, rounded_up x second hs, ap (λ r. r * second) e) in
    rw passed (omega (arith, length-expire-le window later dq))
