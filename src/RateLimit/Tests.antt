-- ===== src/RateLimit/Tests.antt =====
-- A login window of one request in ten seconds, and the theorems about it at a caller's requests.
use masterportal_admin.Base.{
  ◌≡◌, refl, true, false, ok, err, index_error, [], ◌∷◌, ℕ, Bool, ◌≤◌, length, none, some, arith,
}
use masterportal_admin.Base.Dict
use masterportal_admin.RateLimit.{SlidingWindow, init, check, client_key, decide, expire, sweep}
use masterportal_admin.RateLimit.Log.{
  IsLimited, accepts, recent, record_request, record_request-IsLimited,
}
use masterportal_admin.RateLimit.Refinement.{Refines, accepted, check-Refines}
use masterportal_admin.RateLimit.Bound.{run, Refines-init, run-IsLimited}
use masterportal_admin.RateLimit.Retry.{check_returns, retry_accepted}
use masterportal_admin.RateLimit.Zero.{check_zero_limit}

abbrev empty : SlidingWindow
empty = init 1 10 0

abbrev once : SlidingWindow
once = (check 1 empty "a" 3).1

first_accepted : check 1 empty "a" 3 ≡ (ok (true, 0), once)
unfolding check decide expire sweep Dict.get_or Dict.set
first_accepted = refl

second_refused : (check 1 once "a" 5).0 ≡ ok (false, 9)
unfolding check decide expire sweep Dict.get_or Dict.set
second_refused = refl

other_accepted : (check 1 once "b" 5).0 ≡ ok (true, 0)
unfolding check decide expire sweep Dict.get_or Dict.set
other_accepted = refl

check-Refines_example :
    (accepted (check 1 empty "a" 3).0 ≡ accepts 1 10 "a" 3 [])
    × Refines (check 1 empty "a" 3).1 (record_request 1 10 "a" 3 []) 3
check-Refines_example = check-Refines 1 empty "a" 3 [] 0 (omega arith) (Refines-init 1 10 0)

empty-IsLimited : IsLimited 1 10 0 []
unfolding recent
empty-IsLimited k now h = omega arith

once-Refines : Refines once (("a", 3) ∷ []) 3
unfolding recent
once-Refines = (check-Refines 1 empty "a" 3 [] 0 (omega arith) (Refines-init 1 10 0)).1

once-IsLimited : IsLimited 1 10 3 (("a", 3) ∷ [])
unfolding recent
once-IsLimited = record_request-IsLimited 1 10 "a" 0 3 [] (omega arith) empty-IsLimited

retry_accepted_example : accepted (check 1 (check 1 once "a" 5).1 "a" 14).0 ≡ true
unfolding check sweep
retry_accepted_example =
    retry_accepted 1 once "a" 5 (("a", 3) ∷ []) 3 (omega arith) once-Refines once-IsLimited
      (omega arith) (omega arith) 9 14 second_refused (omega arith)

run-IsLimited_example :
    length
      (recent 10 20 "a" (run 1 (init 2 10 0) [] (("a", 1) ∷ ("b", 4) ∷ ("a", 5) ∷ ("a", 6) ∷ [])).1)
    ≤ 2
run-IsLimited_example =
    run-IsLimited 1 2 10 0 (("a", 1) ∷ ("b", 4) ∷ ("a", 5) ∷ ("a", 6) ∷ [])
      (omega arith, (omega arith, (omega arith, (omega arith, tt)))) "a" 20 (omega arith)

check_returns_example : (b : Bool) × (n : ℕ) × ((check 1 once "a" 5).0 ≡ ok (b, n))
unfolding check sweep
check_returns_example = check_returns 1 once "a" 5 (omega arith)

forwarded : client_key "203.0.113.9, 10.0.0.1" (some "10.0.0.2") ≡ "203.0.113.9"
unfolding client_key
forwarded = refl

no_peer : client_key "" none ≡ "unknown"
unfolding client_key
no_peer = refl

check_zero_limit_example :
    (check 1 (run 1 (init 0 60 0) [] (("a", 7) ∷ ("b", 70) ∷ [])).0 "a" 140).0 ≡ err index_error
check_zero_limit_example = check_zero_limit 1 60 0 140 (("a", 7) ∷ ("b", 70) ∷ []) "a"
