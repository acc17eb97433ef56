-- ===== src/RateLimit/Queue.antt =====
-- What expiry and the sweep do to a queue.
use masterportal_admin.Base.{
  ℕ, ◌+◌, ◌≤◌, String, ltb, ◌==◌, eq_iff, if◌then◌else◌, List, [], ◌∷◌, ◌++◌, ◌≡◌, refl, arith, All,
  ◌⊎◌, inl, inr, List-cases, Bool-cases, ◌∙◌,
}
use masterportal_admin.Base.Dict
use masterportal_admin.Base.Dict.{Dict}
use masterportal_admin.RateLimit.{SlidingWindow, expire, sweep_key, sweep_keys, sweep, keys}

-- What has expired stays expired.
pub expire-expire :
    (window now later : ℕ) (dq : List ℕ)
    → now ≤ later
    → expire window later (expire window now dq) ≡ expire window later dq
unfolding expire
expire-expire window now later [] h = refl
expire-expire window now later (t ∷ dq) h = ground (arith, expire-expire window now later dq h)

pub All-expire :
    (window now bound : ℕ) (dq : List ℕ)
    → All (λ t. t ≤ bound) dq
    → All (λ t. t ≤ bound) (expire window now dq)
unfolding expire
All-expire window now bound [] h = tt
All-expire window now bound (t ∷ dq) (p, h) = ground (arith, All-expire window now bound dq h)

-- A newer request is dropped only with all older ones.
pub expire-append :
    (window now t : ℕ) (dq : List ℕ)
    → All (λ x. x ≤ t) dq
    → expire window now (dq ++ t ∷ [])
      ≡ expire window now dq ++ (if ltb now (t + window) then t ∷ [] else [])
unfolding expire
expire-append window now t [] h = ground arith
expire-append window now t (x ∷ dq) (p, h) = ground (arith, expire-append window now t dq h)

abbrev pub queue : Dict (List ℕ) → String → List ℕ
queue hits k = Dict.get_or k [] hits

-- A queue after some rounds of a sweep at the time `now`.
abbrev Swept : ℕ → ℕ → List ℕ → List ℕ → Type 0
Swept window now before after = (after ≡ before) ⊎ (after ≡ expire window now before)

queue-sweep_key :
    (window now : ℕ) (k j : String) (hits : Dict (List ℕ))
    → queue (sweep_key window now k hits) j
      ≡ (if k == j then expire window now (queue hits j) else queue hits j)
unfolding sweep_key
queue-sweep_key window now k j hits =
    elim (List-cases (expire window now (Dict.get_or k [] hits))) [
      | inl e ↦ rw (e, sweep_key) (Dict.get_or-remove k j [] hits ∙ ground (arith, eq_iff k j))
      | inr (t, dq, e) ↦
          rw (e, sweep_key) (Dict.get_or-set k j [] (t ∷ dq) hits ∙ ground (arith, eq_iff k j))
    ]

queue-sweep_keys :
    (window now : ℕ) (ks : List String) (j : String) (hits : Dict (List ℕ))
    → Swept window now (queue hits j) (queue (sweep_keys window now ks hits) j)
unfolding sweep_keys
queue-sweep_keys window now [] j hits = inl refl
queue-sweep_keys window now (k ∷ ks) j hits = ground (
  arith,
  queue-sweep_keys window now ks j (sweep_key window now k hits),
  queue-sweep_key window now k j hits,
  expire-expire window now now (queue hits j),
)

-- A sweep leaves a queue alone, or expires it.
pub queue-sweep :
    (now : ℕ) (w : SlidingWindow) (j : String)
    → (queue (sweep now w).hits j ≡ queue w.hits j)
      ⊎ (queue (sweep now w).hits j ≡ expire w.window now (queue w.hits j))
unfolding sweep
queue-sweep now w j = elim (Bool-cases (ltb now (w.last_sweep + w.window))) [
  | inl early ↦ rw early (inl refl)
  | inr due ↦ rw due (queue-sweep_keys w.window now (keys w.hits) j w.hits)
]

pub window-sweep :
    (now : ℕ) (w : SlidingWindow)
    → ((sweep now w).window ≡ w.window) × ((sweep now w).limit ≡ w.limit)
unfolding sweep
window-sweep now w = ground arith
