-- ===== src/Breaker/Threads/Alone.antt =====
-- Calls of the circuit breaker that no other step interrupts, against the whole methods.
use dota2_analysis.Base.{ℕ, zero, suc, ◌≡◌, arith}
use dota2_analysis.Breaker.{Breaker, record_failure, record_success}
use dota2_analysis.Breaker.Threads.{Pc, done, fail_load, success_load, micro}

-- Up to `fuel` steps of one call.
pub run_alone : ℕ → Pc × Breaker → Pc × Breaker
run_alone zero s = s
run_alone (suc fuel) (pc, cb) = run_alone fuel (micro pc cb)

run_alone-record_failure : (cb : Breaker) → run_alone 7 (fail_load, cb) ≡ (done, record_failure cb)
unfolding run_alone micro record_failure
run_alone-record_failure cb = ground arith

run_alone-record_success :
    (cb : Breaker) → run_alone 5 (success_load, cb) ≡ (done, record_success cb)
unfolding run_alone micro record_success
run_alone-record_success cb = ground arith

-- A call that no other step interrupts is done after seven steps of `RecordFailure`, or five of
-- `RecordSuccess`, and the breaker is then as the whole method leaves it.
pub run_alone_methods :
    (cb : Breaker)
    → (run_alone 7 (fail_load, cb) ≡ (done, record_failure cb))
      × (run_alone 5 (success_load, cb) ≡ (done, record_success cb))
run_alone_methods cb = (run_alone-record_failure cb, run_alone-record_success cb)
