-- ===== src/RateLimit/Zero.antt =====
-- A window with a limit of 0, which app/ratelimit.py means to refuse every request with.
use masterportal_admin.Base.{
  ℕ, ◌+◌, String, List, [], ◌∷◌, ◌++◌, ◌==◌, if◌then◌else◌, err, index_error, ◌≡◌, refl, ap, ◌∙◌,
  arith, ltb, Bool-cases, inl, inr,
}
use masterportal_admin.Base.Dict
use masterportal_admin.Base.Dict.{Dict}
use masterportal_admin.RateLimit.{
  SlidingWindow, init, check, decide, sweep, sweep_key, sweep_keys, expire,
}
use masterportal_admin.RateLimit.Refinement.{accepted}
use masterportal_admin.RateLimit.Bound.{run}

-- No caller has an accepted request.
abbrev AreEmpty : Dict (List ℕ) → Type 0
AreEmpty hits = (k : String) → Dict.get_or k [] hits ≡ []

sweep_key-AreEmpty :
    (window now : ℕ) (j : String) (hits : Dict (List ℕ))
    → AreEmpty hits
    → AreEmpty (sweep_key window now j hits)
unfolding sweep_key expire
sweep_key-AreEmpty window now j hits none_in k =
    rw (none_in j, sweep_key) (Dict.get_or-remove j k [] hits ∙ rw (none_in k) (ground arith))

sweep_keys-AreEmpty :
    (window now : ℕ) (ks : List String) (hits : Dict (List ℕ))
    → AreEmpty hits
    → AreEmpty (sweep_keys window now ks hits)
unfolding sweep_keys
sweep_keys-AreEmpty window now [] hits none_in = none_in
sweep_keys-AreEmpty window now (j ∷ ks) hits none_in =
    sweep_keys-AreEmpty window now ks (sweep_key window now j hits)
      (sweep_key-AreEmpty window now j hits none_in)

-- The limit is 0, and no caller has an accepted request.
abbrev IsIdle : SlidingWindow → Type 0
IsIdle w = (w.limit ≡ 0) × AreEmpty w.hits

sweep-IsIdle : (now : ℕ) (w : SlidingWindow) → IsIdle w → IsIdle (sweep now w)
unfolding sweep
sweep-IsIdle now w (zero_limit, none_in) = elim (Bool-cases (ltb now (w.last_sweep + w.window))) [
  | inl early ↦ rw early (zero_limit, none_in)
  | inr due ↦ rw due (zero_limit, sweep_keys-AreEmpty w.window now _ w.hits none_in)
]

decide_zero :
    (second limit window now : ℕ) (dq : List ℕ)
    → limit ≡ 0
    → dq ≡ []
    → decide second limit window now dq ≡ (err index_error, [])
unfolding decide
decide_zero second limit window now dq zero_limit none_in = rw (zero_limit, none_in) (ground arith)

check-IsIdle :
    (second : ℕ) (w : SlidingWindow) (key : String) (now : ℕ)
    → IsIdle w
    → ((check second w key now).0 ≡ err index_error) × IsIdle (check second w key now).1
unfolding check expire
check-IsIdle second w key now (zero_limit, none_in) =
    let (zero_swept, none_swept) = sweep-IsIdle now w (zero_limit, none_in) in
    let dq = expire w.window now (Dict.get_or key [] (sweep now w).hits) in
    let d =
      decide_zero second w.limit w.window now dq zero_limit
        (ap (expire w.window now) (none_swept key)) in
    let left = (decide second w.limit w.window now dq).1 in
    (
      ap (λ r. r.0) d,
      (
        zero_swept,
        λ k.
            Dict.get_or-set key k [] left (sweep now w).hits
            ∙ ap (λ r. if key == k then r else Dict.get_or k [] (sweep now w).hits)
                (ap (λ r. r.1) d)
            ∙ rw (none_swept k) (ground arith),
      ),
    )

run-IsIdle :
    (second : ℕ) (w : SlidingWindow) (log requests : List (String × ℕ))
    → IsIdle w
    → IsIdle (run second w log requests).0
unfolding run
run-IsIdle second w log [] idle = idle
run-IsIdle second w log ((key, now) ∷ requests) idle =
    let r = check second w key now in
    run-IsIdle second r.1 (if accepted r.0 then log ++ (key, now) ∷ [] else log) requests
      (check-IsIdle second w key now idle).1

-- With a limit of 0, after any history of checks from a new window, in whatever order of time, every
-- check of every caller raises `IndexError`, where the source means to refuse: `dq[0]` of the empty
-- queue.
pub check_zero_limit :
    (second window created now : ℕ) (requests : List (String × ℕ)) (key : String)
    → (check second (run second (init 0 window created) [] requests).0 key now).0 ≡ err index_error
check_zero_limit second window created now requests key =
    (check-IsIdle second (run second (init 0 window created) [] requests).0 key now (
      run-IsIdle second (init 0 window created) [] requests
        (refl, λ k. unfold Dict.get_or in refl))).0
