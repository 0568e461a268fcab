-- ===== src/Breaker/Sequential.antt =====
-- The breaker when its methods do not overlap.
use mathlib.Core.List.{Memᴰ}
use dota2_analysis.Base.{ℕ, ◌-◌, ◌<◌, ◌≡◌, ◌⊎◌, inl, inr, List, [], ◌∷◌, some, arith}
use dota2_analysis.Breaker.{
  Breaker, closed, opened, half_open, new_circuit_breaker, close_ch, record_failure, record_success,
  fire,
}

-- What holds between two calls. While the breaker is open, one goroutine waits, on the channel
-- that `stopTimer` would close; otherwise none waits.
pub record Inv (cb : Breaker) : Type 0 where
  pub target : 0 < cb.half_open_success_target
  pub below_threshold : cb.state ≡ closed → (cb.failures < cb.threshold) ⊎ (cb.failures ≡ 0)
  pub below_target : cb.state ≡ half_open → cb.successes < cb.half_open_success_target
  pub no_successes : (cb.state ≡ half_open) ⊎ (cb.successes ≡ 0)
  pub one_timer :
      cb.state ≡ opened
      → (0 < cb.next_ch)
        × (cb.stop_ch ≡ some (cb.next_ch - 1))
        × (cb.waiting ≡ (cb.next_ch - 1) ∷ [])
  pub no_timer : (cb.state ≡ opened) ⊎ (cb.waiting ≡ [])

pub new-Inv : (threshold : ℕ) → Inv (new_circuit_breaker threshold)
unfolding new_circuit_breaker
new-Inv threshold = ground arith

waits_nowhere : (c : ℕ) (ws : List ℕ) → ws ≡ [] → Memᴰ c ws → ⊥
waits_nowhere c [] e m = elim m [ ]
waits_nowhere c (w ∷ ws) e m = cc

waits_once : (c d : ℕ) (ws : List ℕ) → ws ≡ d ∷ [] → Memᴰ c ws → c ≡ d
waits_once c d [] e m = cc
waits_once c d (w ∷ ws) e (Memᴰ.head h) = cc
waits_once c d (w ∷ ws) e (Memᴰ.tail m) = absurd (waits_nowhere c ws (cc) m)

close_ch_self : (c : ℕ) → close_ch c (c ∷ []) ≡ []
unfolding close_ch
close_ch_self c = ground arith

-- The channel that fires is the one that is waited on.
pub fire-Inv : {cb : Breaker} (c : ℕ) → Inv cb → Memᴰ c cb.waiting → Inv (fire c cb)
unfolding fire
fire-Inv {cb} c v m = elim v.no_timer [
  | inr idle ↦ absurd (waits_nowhere c cb.waiting idle m)
  | inl open_now ↦
      let (_, _, one) = v.one_timer open_now in
      ground (arith, waits_once c (cb.next_ch - 1) cb.waiting one m, close_ch_self c)
]

pub record_failure-Inv : {cb : Breaker} → Inv cb → Inv (record_failure cb)
unfolding record_failure
record_failure-Inv {cb} v = ground arith

pub record_success-Inv : {cb : Breaker} → Inv cb → Inv (record_success cb)
unfolding record_success
record_success-Inv {cb} v = ground arith
