-- ===== src/Breaker/Threads.antt =====
-- The methods of go-ingestion/internal/resilience/circuit_breaker.go split at their atomic
-- operations: each load, add, store, compare-and-swap and each timer method (which holds `cb.mu`)
-- is one step, and the steps of any number of calls and timers interleave.
pub mod Alone
pub mod Stuck
use dota2_analysis.Base.{
  ℕ, zero, suc, ◌+◌, ◌-◌, Bool, true, false, List, [], ◌∷◌, Option, none, some, leb, ltb, ◌==◌,
  if◌then◌else◌, get_elem?,
}
use dota2_analysis.Breaker.{
  Breaker, State, closed, opened, half_open, close_ch, stop_timer, start_timer,
}

-- Where a call stands: what it does next.
pub data Pc : Type 0 where
  done : Pc
  -- RecordFailure
  fail_load : Pc
  half_stop : Pc
  half_swap : Pc
  half_reset_successes : Pc
  half_reset_failures : Pc
  fail_add : Pc
  closed_swap : Pc
  closed_reset_successes : Pc
  closed_reset_failures : Pc
  closed_stop : Pc
  start : Pc
  -- RecordSuccess
  success_load : Pc
  success_add : Pc
  success_swap : Pc
  success_reset_successes : Pc
  success_reset_failures : Pc
  failures_load : Pc
  failures_swap : ℕ → Pc

abbrev pub is_state : State → State → Bool
is_state closed closed = true
is_state opened opened = true
is_state half_open half_open = true
is_state _ _ = false

-- `atomic.CompareAndSwapInt32(&cb.state, old, new)`, and where each outcome leads.
unfoldable pub swap_state : State → State → Pc → Breaker → Pc × Breaker
swap_state old new swapped cb =
    if is_state cb.state old then (swapped, record cb { state = new }) else (done, cb)

-- One atomic step of a call.
unfoldable pub micro : Pc → Breaker → Pc × Breaker
unfolding swap_state
micro done cb = (done, cb)
micro fail_load cb =
    (elim cb.state [ opened ↦ done | half_open ↦ half_stop | closed ↦ fail_add ], cb)
micro half_stop cb = (half_swap, stop_timer cb)
micro half_swap cb = swap_state half_open opened half_reset_successes cb
micro half_reset_successes cb = (half_reset_failures, record cb { successes = 0 })
micro half_reset_failures cb = (start, record cb { failures = 0 })
micro fail_add cb =
    let n = cb.failures + 1 in
    (if leb cb.threshold n then closed_swap else done, record cb { failures = n })
micro closed_swap cb = swap_state closed opened closed_reset_successes cb
micro closed_reset_successes cb = (closed_reset_failures, record cb { successes = 0 })
micro closed_reset_failures cb = (closed_stop, record cb { failures = 0 })
micro closed_stop cb = (start, stop_timer cb)
micro start cb = (done, start_timer cb)
micro success_load cb =
    (elim cb.state [ half_open ↦ success_add | closed ↦ failures_load | opened ↦ done ], cb)
micro success_add cb =
    let s = cb.successes + 1 in
    (if leb cb.half_open_success_target s then success_swap else done, record cb { successes = s })
micro success_swap cb = swap_state half_open closed success_reset_successes cb
micro success_reset_successes cb = (success_reset_failures, record cb { successes = 0 })
micro success_reset_failures cb = (done, record cb { failures = 0 })
micro failures_load cb = (if cb.failures == 0 then done else failures_swap cb.failures, cb)
micro (failures_swap cur) cb =
    if cb.failures == cur then (done, record cb { failures = cur - 1 }) else (failures_load, cb)

-- The breaker, the calls that were made on it, and how many timers have gone off and are about to
-- store the half-open state.
pub record System : Type 0 where
  pub cb : Breaker
  pub calls : List Pc
  pub firing : ℕ

pub data Move : Type 0 where
  call_failure call_success : Move
  run_call : ℕ → Move
  expire : ℕ → Move
  store_half_open : Move

pub set_call : List Pc → ℕ → Pc → List Pc
set_call [] i pc = []
set_call (c ∷ calls) zero pc = pc ∷ calls
set_call (c ∷ calls) (suc i) pc = c ∷ set_call calls i pc

pub member_ch : ℕ → List ℕ → Bool
member_ch c [] = false
member_ch c (d ∷ waiting) = if d == c then true else member_ch c waiting

-- A move that is not possible changes nothing.
unfoldable pub move : System → Move → System
unfolding set_call member_ch
move s call_failure = record s { calls = fail_load ∷ s.calls }
move s call_success = record s { calls = success_load ∷ s.calls }
move s (run_call i) = elim (get_elem? s.calls i) [
  | none ↦ s
  | some pc ↦
      let (pc', cb') = micro pc s.cb in record s { cb = cb'; calls = set_call s.calls i pc' }
]
move s (expire c) =
    if member_ch c s.cb.waiting
    then record s {
      cb = record (s.cb) { waiting = close_ch c s.cb.waiting };
      firing = s.firing + 1;
    }
    else s
move s store_half_open =
    if ltb 0 s.firing
    then record s { cb = record (s.cb) { state = half_open }; firing = s.firing - 1 }
    else s

unfoldable pub moves : System → List Move → System
unfolding move
moves s [] = s
moves s (m ∷ ms) = moves (move s m) ms
