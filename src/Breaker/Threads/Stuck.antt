-- ===== src/Breaker/Threads/Stuck.antt =====
-- Two failing calls that overlap while the breaker is half open: `RecordFailure` of
-- go-ingestion/internal/resilience/circuit_breaker.go.
use dota2_analysis.Base.{
  ℕ, zero, suc, ◌≡◌, refl, ap, subst, ◌∙◌, ◌⊎◌, inl, inr, false, List, [], ◌∷◌, Option, none, some,
  arith, All, get_elem?, Option-cases,
}
use dota2_analysis.Breaker.{Breaker, opened, half_open, allow, stop_timer, start_timer}
use dota2_analysis.Breaker.Sequential.{Inv}
use dota2_analysis.Breaker.Threads.{
  Pc, done, fail_load, success_load, micro, System, Move, call_failure, call_success, run_call,
  expire, store_half_open, set_call, move, moves,
}

-- A call that is over, or has not read the state yet.
abbrev pub IsIdle : Pc → Type 0
IsIdle pc = (pc ≡ done) ⊎ (pc ≡ fail_load) ⊎ (pc ≡ success_load)

-- Open, with no timer that could end it.
pub record Stuck (s : System) : Type 0 where
  pub open_now : s.cb.state ≡ opened
  pub no_waiting : s.cb.waiting ≡ []
  pub no_firing : s.firing ≡ 0
  pub idle : All IsIdle s.calls

micro-IsIdle :
    (pc : Pc) (cb : Breaker)
    → cb.state ≡ opened
    → IsIdle pc
    → IsIdle (micro pc cb).0 × ((micro pc cb).1 ≡ cb)
unfolding micro
micro-IsIdle pc cb h i = ground arith

IsIdle-set_call :
    (calls : List Pc) (i : ℕ) (pc : Pc)
    → All IsIdle calls
    → IsIdle pc
    → All IsIdle (set_call calls i pc)
unfolding set_call
IsIdle-set_call [] i pc h p = tt
IsIdle-set_call (c ∷ calls) zero pc h p = (p, h.1)
IsIdle-set_call (c ∷ calls) (suc i) pc h p = (h.0, IsIdle-set_call calls i pc h.1 p)

IsIdle-get_elem? :
    (calls : List Pc) (i : ℕ) {pc : Pc} → All IsIdle calls → get_elem? calls i ≡ some pc → IsIdle pc
IsIdle-get_elem? [] i h e = cc
IsIdle-get_elem? (c ∷ calls) zero h e = ground arith
IsIdle-get_elem? (c ∷ calls) (suc i) h e = IsIdle-get_elem? calls i h.1 e

move-Stuck : (s : System) (m : Move) → Stuck s → Stuck (move s m)
unfolding move
move-Stuck s call_failure v = record {
  open_now = v.open_now;
  no_waiting = v.no_waiting;
  no_firing = v.no_firing;
  idle = (inr (inl refl), v.idle);
}
move-Stuck s call_success v = record {
  open_now = v.open_now;
  no_waiting = v.no_waiting;
  no_firing = v.no_firing;
  idle = (inr (inr refl), v.idle);
}
move-Stuck s (run_call i) v = elim (Option-cases (get_elem? s.calls i)) [
  | inl missing ↦ rw (missing, move) v
  | inr (pc, here) ↦
      let (idle', same) =
        micro-IsIdle pc s.cb v.open_now (IsIdle-get_elem? s.calls i v.idle here) in
      rw (here, move)
        (record {
          open_now = ap (λ (cb : Breaker). cb.state) same ∙ v.open_now;
          no_waiting = ap (λ (cb : Breaker). cb.waiting) same ∙ v.no_waiting;
          no_firing = v.no_firing;
          idle = IsIdle-set_call s.calls i (micro pc s.cb).0 v.idle idle';
        })
]
move-Stuck s (expire c) v = ground arith
move-Stuck s store_half_open v = ground arith

-- A stuck breaker rejects every call from then on, whatever calls are made and timers go off.
pub Stuck-allow : (s : System) (ms : List Move) → Stuck s → allow (moves s ms).cb ≡ false
unfolding moves allow
Stuck-allow s [] v = ground arith
Stuck-allow s (m ∷ ms) v = Stuck-allow (move s m) ms (move-Stuck s m v)

-- Both calls load the state; the first runs to its end; the second then stops the timer and
-- fails its compare-and-swap.
abbrev pub overlap : List Move
overlap =
    call_failure
    ∷ call_failure
    ∷ run_call 1
    ∷ run_call 0
    ∷ run_call 0
    ∷ run_call 0
    ∷ run_call 0
    ∷ run_call 0
    ∷ run_call 0
    ∷ run_call 1
    ∷ run_call 1
    ∷ []

abbrev probing : ℕ → ℕ → ℕ → ℕ → Option ℕ → ℕ → Breaker
probing failures successes threshold target stop_ch next_ch = record {
  failures = failures;
  successes = successes;
  threshold = threshold;
  half_open_success_target = target;
  state = half_open;
  stop_ch = stop_ch;
  waiting = [];
  next_ch = next_ch;
}

abbrev quiet : Breaker → System
quiet cb = record { cb = cb; calls = []; firing = 0 }

probing-overlap :
    (f s t g n : ℕ) (stop_ch : Option ℕ) → Stuck (moves (quiet (probing f s t g stop_ch n)) overlap)
unfolding moves micro stop_timer start_timer
probing-overlap f s t g n none = ground arith
probing-overlap f s t g n (some c) = ground arith

-- From every half-open breaker that one call at a time can reach, two failing calls can leave the
-- breaker stuck: it is open, its timer is gone, and no later moves make it accept a call again.
pub overlap_sticks :
    (cb : Breaker) (ms : List Move)
    → Inv cb
    → cb.state ≡ half_open
    → let s = moves (record { cb = cb; calls = []; firing = 0 }) overlap in
      Stuck s × (allow (moves s ms).cb ≡ false)
overlap_sticks cb ms v h = (stuck, Stuck-allow _ ms stuck)
  where
    at_rest :
        probing cb.failures cb.successes cb.threshold cb.half_open_success_target cb.stop_ch
          cb.next_ch
        ≡ cb
    at_rest = ground (arith, v.no_timer)

    stuck : Stuck (moves (quiet cb) overlap)
    stuck =
        subst (λ cb. Stuck (moves (quiet cb) overlap)) at_rest
          (probing-overlap cb.failures cb.successes cb.threshold cb.half_open_success_target
            cb.next_ch cb.stop_ch)
