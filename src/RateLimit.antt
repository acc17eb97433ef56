-- ===== src/RateLimit.antt =====
-- app/ratelimit.py: one sliding window of accepted requests for each caller.
--
-- The readings of the monotonic clock are whole numbers of ticks, `second` of them to a second; the
-- source has floats.
pub mod Queue
pub mod Log
pub mod Refinement
pub mod Bound
pub mod Retry
pub mod Zero
pub mod Tests
use masterportal_admin.Base.{
  ℕ, suc, ◌+◌, ◌-◌, ◌/◌, ◌*◌, String, Bool, true, false, leb, ltb, if◌then◌else◌, List, [], ◌∷◌,
  ◌++◌, Option, none, some, Result, ok, err, index_error, length, ◌==◌,
}
use masterportal_admin.Base.Text.{before, strip}
use masterportal_admin.Base.Dict
use masterportal_admin.Base.Dict.{Dict}

pub record SlidingWindow : Type 0 where
  pub limit : ℕ
  pub window : ℕ
  pub hits : Dict (List ℕ)
  pub last_sweep : ℕ

-- `SlidingWindow(limit, window_s)`, created at the time `now`.
abbrev pub init : ℕ → ℕ → ℕ → SlidingWindow
init limit window now = record { limit = limit; window = window; hits = []; last_sweep = now }

-- `while dq and dq[0] <= now - window: dq.popleft()`
unfoldable pub expire : ℕ → ℕ → List ℕ → List ℕ
expire window now [] = []
expire window now (t ∷ dq) =
    let rest = expire window now dq in if leb (t + window) now then rest else t ∷ dq

-- One round of the loop of `_sweep`.
unfoldable pub sweep_key : ℕ → ℕ → String → Dict (List ℕ) → Dict (List ℕ)
sweep_key window now k hits = elim (expire window now (Dict.get_or k [] hits)) [
  | [] ↦ Dict.remove k hits
  | t ∷ dq ↦ Dict.set k (t ∷ dq) hits
]

unfoldable pub sweep_keys : ℕ → ℕ → List String → Dict (List ℕ) → Dict (List ℕ)
sweep_keys window now [] hits = hits
sweep_keys window now (k ∷ ks) hits = sweep_keys window now ks (sweep_key window now k hits)

abbrev pub keys : Dict (List ℕ) → List String
keys [] = []
keys ((k, dq) ∷ hits) = k ∷ keys hits

unfoldable pub sweep : ℕ → SlidingWindow → SlidingWindow
sweep now w =
    if ltb now (w.last_sweep + w.window)
    then w
    else record w { last_sweep = now; hits = sweep_keys w.window now (keys w.hits) w.hits }

-- The decision over the expired queue, and the queue that it leaves. `dq[0]` of an empty queue, under
-- a limit of 0, is an error.
unfoldable pub decide : ℕ → ℕ → ℕ → ℕ → List ℕ → Result (Bool × ℕ) × List ℕ
decide second limit window now dq =
    if leb limit (length dq)
    then (
      elim dq [ [] ↦ err index_error | t ∷ rest ↦ ok (false, (window - (now - t)) / second + 1) ],
      dq,
    )
    else (ok (true, 0), dq ++ now ∷ [])

-- `check(key)` at the time `now`: (allowed, retry_after_seconds).
unfoldable pub check : ℕ → SlidingWindow → String → ℕ → Result (Bool × ℕ) × SlidingWindow
check second w key now =
    let swept = sweep now w in
    let (r, dq) =
      decide second w.limit w.window now (expire w.window now (Dict.get_or key [] swept.hits)) in
    (r, record swept { hits = Dict.set key dq swept.hits })

-- `client_key(request)`, from the header `x-forwarded-for` and the peer's host.
unfoldable pub client_key : String → Option String → String
unfolding before strip
client_key xff host =
    if xff == "" then elim host [ none ↦ "unknown" | some h ↦ h ] else strip (before b',' xff)
