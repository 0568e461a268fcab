-- ===== src/Tests/Breaker.antt =====
-- The circuit breaker: go-ingestion/internal/resilience/circuit_breaker.go.
use mathlib.Core.List.{Memᴰ}
use dota2_analysis.Base.{◌≡◌, refl, true, false, List, [], ◌∷◌}
use dota2_analysis.Breaker.{
  Breaker, opened, half_open, new_circuit_breaker, allow, record_failure, record_success, fire,
}
use dota2_analysis.Breaker.Sequential.{Inv}
use dota2_analysis.Breaker.Traces.{Reach, here, next, fails, fires, run, Reach-Inv}
use dota2_analysis.Breaker.Threads.{System, Move, call_success, run_call, moves}
use dota2_analysis.Breaker.Threads.Stuck.{Stuck, overlap, overlap_sticks}

abbrev fresh : Breaker
fresh = new_circuit_breaker 2

-- Open after two failures, and half open once the timer has gone off.
abbrev tripped : Breaker
tripped = record_failure (record_failure fresh)

abbrev probing : Breaker
probing = fire 0 tripped

tripped_state : tripped.state ≡ opened
unfolding record_failure new_circuit_breaker
tripped_state = refl

probing_state : probing.state ≡ half_open
unfolding fire
probing_state = refl

probing_rejects_nothing : allow probing ≡ true
unfolding fire allow
probing_rejects_nothing = refl

timer_waits : Memᴰ 0 tripped.waiting
unfolding record_failure new_circuit_breaker
timer_waits = Memᴰ.head refl

Reach-tripped : Reach (new_circuit_breaker 2) tripped
Reach-tripped = next (next here fails) fails

Reach-Inv_example : Inv tripped
Reach-Inv_example = Reach-Inv 2 Reach-tripped

run_opens : (run (true ∷ false ∷ true ∷ true ∷ []) fresh).state ≡ opened
unfolding run record_failure record_success new_circuit_breaker
run_opens = refl

Reach-probing : Reach (new_circuit_breaker 2) probing
Reach-probing = next Reach-tripped (fires 0 timer_waits)

-- A later call that succeeds, run to its end.
abbrev later : List Move
later = call_success ∷ run_call 0 ∷ run_call 0 ∷ []

abbrev overlapped : System
overlapped = moves (record { cb = probing; calls = []; firing = 0 }) overlap

overlap_sticks_example : Stuck overlapped × (allow (moves overlapped later).cb ≡ false)
overlap_sticks_example = overlap_sticks probing later (Reach-Inv 2 Reach-probing) probing_state
