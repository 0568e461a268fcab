-- ===== src/Breaker/Traces.antt =====
-- Runs of a breaker whose methods do not overlap: opening, probing, recovery.
use mathlib.Core.List.{Memᴰ}
use dota2_analysis.Base.{
  ℕ, suc, zero, ◌+◌, ◌-◌, ◌≤◌, ◌<◌, ◌≡◌, refl, sym, subst, ◌⊎◌, inl, inr, Bool, true, false, List,
  [], ◌∷◌, arith,
}
use dota2_analysis.Breaker.{
  Breaker, closed, opened, half_open, new_circuit_breaker, allow, record_failure, record_success,
  fire,
}
use dota2_analysis.Breaker.Sequential.{
  Inv, new-Inv, record_failure-Inv, record_success-Inv, fire-Inv,
}

-- One call, or the timer of the open state going off.
pub data Step (cb : Breaker) : Breaker → Type 0 where
  fails : Step cb (record_failure cb)
  succeeds : Step cb (record_success cb)
  fires : (c : ℕ) → Memᴰ c cb.waiting → Step cb (fire c cb)

pub data Reach (cb : Breaker) : Breaker → Type 0 where
  here : Reach cb cb
  next : {cb' cb'' : Breaker} → Reach cb cb' → Step cb' cb'' → Reach cb cb''

Step-Inv : {cb cb' : Breaker} → Inv cb → Step cb cb' → Inv cb'
Step-Inv v fails = record_failure-Inv v
Step-Inv v succeeds = record_success-Inv v
Step-Inv v (fires c m) = fire-Inv c v m

-- Whatever calls are made, one after the other, and whenever the timer goes off: while the breaker
-- is open exactly one timer runs, otherwise none does, and the two counters stay below their limits.
pub Reach-Inv : (threshold : ℕ) {cb : Breaker} → Reach (new_circuit_breaker threshold) cb → Inv cb
Reach-Inv threshold here = new-Inv threshold
Reach-Inv threshold (next r s) = Step-Inv (Reach-Inv threshold r) s

abbrev pub iterate {ℓ} : {A : Type ℓ} → ℕ → (A → A) → A → A
iterate zero f a = a
iterate (suc n) f a = iterate n f (f a)

succeed_to_target :
    (n : ℕ) (cb : Breaker)
    → cb.state ≡ half_open
    → 0 < n
    → cb.half_open_success_target ≡ cb.successes + n
    → ((iterate n record_success cb).state ≡ closed) × ((iterate n record_success cb).failures ≡ 0)
unfolding record_success
succeed_to_target zero cb h pos e = absurd (omega arith)
succeed_to_target (suc zero) cb h pos e = ground arith
succeed_to_target (suc (suc n)) cb h pos e =
    succeed_to_target (suc n) (record_success cb) (ground arith) (omega arith) (ground arith)

-- An open breaker recovers: its timer can go off, and then as many successes as the target (three)
-- close it again, with no failure left on record.
pub recovers :
    (cb : Breaker)
    → Inv cb
    → cb.state ≡ opened
    → let c = cb.next_ch - 1 in
      let after = iterate cb.half_open_success_target record_success (fire c cb) in
      Memᴰ c cb.waiting × (allow (fire c cb) ≡ true) × (after.state ≡ closed) × (after.failures ≡ 0)
unfolding fire allow
recovers cb v h =
    let (_, _, one) = v.one_timer h in
    let probing = fire (cb.next_ch - 1) cb in
    let fresh : cb.successes ≡ 0 = ground arith in
    let closes =
      succeed_to_target cb.half_open_success_target probing refl v.target (omega arith) in
    (subst (Memᴰ (cb.next_ch - 1)) (sym one) (Memᴰ.head refl), refl, closes.0, closes.1)

-- A failure while half open opens the breaker at once; no success is kept.
pub half_open_fails :
    (cb : Breaker)
    → cb.state ≡ half_open
    → (allow (record_failure cb) ≡ false) × ((record_failure cb).successes ≡ 0)
unfolding record_failure allow
half_open_fails cb h = ground arith

-- A run of calls from outside: `true` for a failure.
unfoldable pub run : List Bool → Breaker → Breaker
run [] cb = cb
run (true ∷ calls) cb = run calls (record_failure cb)
run (false ∷ calls) cb = run calls (record_success cb)

abbrev pub failures_in : List Bool → ℕ
failures_in [] = 0
failures_in (true ∷ calls) = suc (failures_in calls)
failures_in (false ∷ calls) = failures_in calls

failure_step :
    (cb : Breaker)
    → cb.state ≡ closed
    → let cb' = record_failure cb in
      ((cb'.state ≡ closed) × (cb'.failures ≡ cb.failures + 1) × (cb'.threshold ≡ cb.threshold))
      ⊎ ((cb'.state ≡ opened) × (cb.threshold ≤ cb.failures + 1))
unfolding record_failure
failure_step cb h = ground arith

success_step :
    (cb : Breaker)
    → cb.state ≡ closed
    → let cb' = record_success cb in
      (cb'.state ≡ closed) × (cb'.failures ≤ cb.failures) × (cb'.threshold ≡ cb.threshold)
unfolding record_success
success_step cb h = ground arith

opened_needs :
    (calls : List Bool) (cb : Breaker)
    → cb.state ≡ closed
    → (run calls cb).state ≡ opened
    → cb.threshold ≤ cb.failures + failures_in calls
unfolding run
opened_needs [] cb h o = cc
opened_needs (true ∷ calls) cb h o = elim (failure_step cb h) [
  | inl (still, more, same) ↦ omega (arith, opened_needs calls (record_failure cb) still o)
  | inr (_, enough) ↦ omega arith
]
opened_needs (false ∷ calls) cb h o =
    let (still, less, same) = success_step cb h in
    omega (arith, opened_needs calls (record_success cb) still o)

-- A new breaker is open after some calls only if at least `threshold` of them failed.
pub opened_needs_failures :
    (threshold : ℕ) (calls : List Bool)
    → (run calls (new_circuit_breaker threshold)).state ≡ opened
    → threshold ≤ failures_in calls
unfolding new_circuit_breaker
opened_needs_failures threshold calls o =
    omega (arith, opened_needs calls (new_circuit_breaker threshold) refl o)
