-- ===== src/RateLimit/Refinement.antt =====
-- `check` decides as the log of accepted requests does, whatever has been swept.
use masterportal_admin.Base.{
  ℕ, ◌+◌, ◌≤◌, String, Bool, true, false, ltb, ◌==◌, eq_iff, if◌then◌else◌, List, [], ◌∷◌, ◌++◌,
  ◌≡◌, sym, ◌∙◌, ap, arith, length, Result, ok, err, All, All-append, inl, inr, Bool-cases,
}
use masterportal_admin.Base.Dict
use masterportal_admin.RateLimit.{SlidingWindow, expire, sweep, decide, check}
use masterportal_admin.RateLimit.Queue.{
  queue, queue-sweep, expire-expire, All-expire, expire-append, window-sweep,
}
use masterportal_admin.RateLimit.Log.{recent, accepts, record_request, recent-append}
use mathlib.Core.List.{append-nil}

-- The window's queues stand for the log, at every time from `t` on.
pub record Refines (w : SlidingWindow) (log : List (String × ℕ)) (t : ℕ) : Type 0 where
  pub bounded : (k : String) → All (λ x. x ≤ t) (queue w.hits k)
  pub agrees :
      (k : String) (now : ℕ)
      → t ≤ now
      → expire w.window now (queue w.hits k) ≡ recent w.window now k log

abbrev pub accepted : Result (Bool × ℕ) → Bool
accepted (ok (allowed, _)) = allowed
accepted (err _) = false

All-later : (t now : ℕ) (dq : List ℕ) → t ≤ now → All (λ x. x ≤ t) dq → All (λ x. x ≤ now) dq
All-later t now [] h a = tt
All-later t now (x ∷ dq) h (p, a) = (omega arith, All-later t now dq h a)

sweep-Refines :
    (w : SlidingWindow) (log : List (String × ℕ)) (t now : ℕ)
    → t ≤ now
    → Refines w log t
    → Refines (sweep now w) log now
sweep-Refines w log t now h r = record {
  bounded = λ k. elim (queue-sweep now w k) [
    | inl same ↦ rw same (All-later t now _ h (r.bounded k))
    | inr swept ↦ rw swept (All-expire w.window now now _ (All-later t now _ h (r.bounded k)))
  ];
  agrees = λ k later hl. rw ((window-sweep now w).0) (elim (queue-sweep now w k) [
    | inl same ↦ rw same (r.agrees k later (omega arith))
    | inr swept ↦ rw swept (expire-expire w.window now later _ hl ∙ r.agrees k later (omega arith))
  ]);
}

accepted-decide :
    (second limit window now : ℕ) (dq : List ℕ)
    → accepted (decide second limit window now dq).0 ≡ ltb (length dq) limit
unfolding decide
accepted-decide second limit window now [] = ground arith
accepted-decide second limit window now (t ∷ dq) = ground arith

queue-decide :
    (second limit window now : ℕ) (dq : List ℕ)
    → (decide second limit window now dq).1 ≡ (if ltb (length dq) limit then dq ++ now ∷ [] else dq)
unfolding decide
queue-decide second limit window now dq = ground arith

module _ (second : ℕ) (w : SlidingWindow) (key : String) (now : ℕ) where
  abbrev pub swept : SlidingWindow
  swept = sweep now w

  abbrev pub dq : List ℕ
  dq = expire w.window now (queue swept.hits key)

  -- The queues after a check.
  queue-check :
      (k : String)
      → queue (check second w key now).1.hits k ≡ (
          if key == k
          then (if ltb (length dq) w.limit then dq ++ now ∷ [] else dq)
          else queue swept.hits k)
  unfolding check
  queue-check k =
      Dict.get_or-set key k [] _ swept.hits
      ∙ ap (λ q. if key == k then q else queue swept.hits k)
          (queue-decide second w.limit w.window now dq)

  check_decides : accepted (check second w key now).0 ≡ ltb (length dq) w.limit
  unfolding check
  check_decides = accepted-decide second w.limit w.window now dq

  pub window-check :
      ((check second w key now).1.window ≡ w.window) × ((check second w key now).1.limit ≡ w.limit)
  unfolding check
  window-check = window-sweep now w

  module _ (log : List (String × ℕ)) (t : ℕ) (h : t ≤ now) (r : Refines w log t) where
    swept-Refines : Refines swept log now
    swept-Refines = sweep-Refines w log t now h r

    swept_agrees :
        (k : String) (later : ℕ)
        → now ≤ later
        → expire w.window later (queue swept.hits k) ≡ recent w.window later k log
    swept_agrees k later hl = rw ((window-sweep now w).0) at (swept-Refines.agrees k later hl)

    pub dq-recent : dq ≡ recent w.window now key log
    dq-recent = swept_agrees key now (omega arith)

    pub dq_bounded : All (λ x. x ≤ now) dq
    dq_bounded = All-expire w.window now now _ (swept-Refines.bounded key)

    pub dq_agrees :
        (later : ℕ) → now ≤ later → expire w.window later dq ≡ recent w.window later key log
    dq_agrees later hl =
        expire-expire w.window now later (queue swept.hits key) hl ∙ swept_agrees key later hl

    fits-accepts : ltb (length dq) w.limit ≡ accepts w.limit w.window key now log
    fits-accepts = ap (λ q. ltb (length q) w.limit) dq-recent

    bounded_after :
        (b : Bool) (k : String)
        → All
            (λ x. x ≤ now)
            (if key == k then (if b then dq ++ now ∷ [] else dq) else queue swept.hits k)
    bounded_after b k = elim (Bool-cases (key == k)) [
      | inr other ↦ rw other (swept-Refines.bounded k)
      | inl own ↦ rw own (elim b as (λ b. All (λ x. x ≤ now) (if b then dq ++ now ∷ [] else dq)) [
        | true ↦ All-append (λ x. x ≤ now) dq (now ∷ []) dq_bounded (omega arith, tt)
        | false ↦ dq_bounded
      ])
    ]

    agrees_after :
        (b : Bool) (k : String) (later : ℕ)
        → now ≤ later
        → expire w.window later
            (if key == k then (if b then dq ++ now ∷ [] else dq) else queue swept.hits k)
          ≡ recent w.window later k (if b then log ++ (key, now) ∷ [] else log)
    agrees_after true k later hl = elim (Bool-cases (key == k)) [
      | inr other ↦
          rw (other, recent-append) (rw other (swept_agrees k later hl ∙ sym (append-nil _)))
      | inl own ↦
          rw (own, recent-append)
            (rw own (
              let same : key ≡ k = (eq_iff key k).0 own in
              expire-append w.window later now dq dq_bounded
              ∙ ap (λ q. q ++ (if ltb later (now + w.window) then now ∷ [] else []))
                  (dq_agrees later hl ∙ ap (λ j. recent w.window later j log) same)))
    ]
    agrees_after false k later hl = elim (Bool-cases (key == k)) [
      | inr other ↦ rw other (swept_agrees k later hl)
      | inl own ↦
          rw own (dq_agrees later hl ∙ ap (λ j. recent w.window later j log) ((eq_iff key k).0 own))
    ]

    -- `check` accepts exactly if the log of accepted requests has fewer than `limit` of the caller's
    -- in the window, and its queues then stand for the log with this request.
    pub check-Refines :
        (accepted (check second w key now).0 ≡ accepts w.limit w.window key now log)
        × Refines (check second w key now).1 (record_request w.limit w.window key now log) now
    check-Refines = (
      check_decides ∙ fits-accepts,
      record {
        bounded = λ k. rw (queue-check k) (bounded_after (ltb (length dq) w.limit) k);
        agrees = λ k later hl. rw (window-check.0) (
            rw (queue-check k)
              (rw (← fits-accepts) (agrees_after (ltb (length dq) w.limit) k later hl)));
      },
    )
