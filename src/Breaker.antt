-- ===== src/Breaker.antt =====
-- go-ingestion/internal/resilience/circuit_breaker.go. Each method is one function here; a timer
-- is a channel that a goroutine of `startTimer` still waits on. Breaker/Threads.antt splits the
-- methods at their atomic operations.
pub mod Sequential
pub mod Traces
pub mod Threads
use dota2_analysis.Base.{
  ℕ, suc, ◌+◌, ◌-◌, Bool, true, false, List, [], ◌∷◌, Option, none, some, leb, ◌==◌, if◌then◌else◌,
}

pub data State : Type 0 where
  closed opened half_open : State

-- `failures` and `successes` are int64 counters; they are never below 0 and stay below the two
-- limits when the methods do not overlap, so no wrap-around is written.
pub record Breaker : Type 0 where
  pub failures : ℕ
  pub successes : ℕ
  pub threshold : ℕ
  pub half_open_success_target : ℕ
  pub state : State
  pub stop_ch : Option ℕ
  -- The channels that goroutines wait on, and the next channel that `make` returns.
  pub waiting : List ℕ
  pub next_ch : ℕ

unfoldable pub new_circuit_breaker : ℕ → Breaker
new_circuit_breaker threshold = record {
  failures = 0;
  successes = 0;
  threshold = threshold;
  half_open_success_target = 3;
  state = closed;
  stop_ch = none;
  waiting = [];
  next_ch = 0;
}

unfoldable pub allow : Breaker → Bool
allow cb = elim cb.state [ opened ↦ false | half_open ↦ true | closed ↦ true ]

-- Closing a channel ends the goroutine that waits on it.
unfoldable pub close_ch : ℕ → List ℕ → List ℕ
close_ch c [] = []
close_ch c (d ∷ waiting) = let rest = close_ch c waiting in if d == c then rest else d ∷ rest

unfoldable pub stop_timer : Breaker → Breaker
unfolding close_ch
stop_timer cb = elim cb.stop_ch [
  | none ↦ cb
  | some c ↦ record cb { stop_ch = none; waiting = close_ch c cb.waiting }
]

unfoldable pub start_timer : Breaker → Breaker
start_timer cb = record cb {
  stop_ch = some cb.next_ch;
  waiting = cb.next_ch ∷ cb.waiting;
  next_ch = cb.next_ch + 1;
}

abbrev pub reset_counts : Breaker → Breaker
reset_counts cb = record cb { successes = 0; failures = 0 }

unfoldable pub fail_by : State → Breaker → Breaker
unfolding stop_timer start_timer
fail_by opened cb = cb
fail_by half_open cb = start_timer (reset_counts (record (stop_timer cb) { state = opened }))
fail_by closed cb =
    let n = cb.failures + 1 in
    if leb cb.threshold n
    then start_timer (stop_timer (reset_counts (record cb { failures = n; state = opened })))
    else record cb { failures = n }

unfoldable pub record_failure : Breaker → Breaker
unfolding fail_by
record_failure cb = fail_by cb.state cb

unfoldable pub succeed_by : State → Breaker → Breaker
succeed_by half_open cb =
    let s = cb.successes + 1 in
    if leb cb.half_open_success_target s
    then reset_counts (record cb { successes = s; state = closed })
    else record cb { successes = s }
-- `cur <= 0` leaves the counter; otherwise it is set to `cur - 1`.
succeed_by closed cb = record cb { failures = cb.failures - 1 }
succeed_by opened cb = cb

unfoldable pub record_success : Breaker → Breaker
unfolding succeed_by
record_success cb = succeed_by cb.state cb

-- The goroutine on channel `c` gets its `time.After` first.
unfoldable pub fire : ℕ → Breaker → Breaker
unfolding close_ch
fire c cb = record cb { state = half_open; waiting = close_ch c cb.waiting }
