-- ===== src/Backpressure/Rates.antt =====
-- The range of the rates of `adjustForBackpressure`, and their way back to the base
-- (go-ingestion/internal/queue/redisstreams/queue.go).
use dota2_analysis.Base.{ℕ, zero, suc, ◌+◌, ◌-◌, ◌≤◌, ◌<◌, ◌≡◌, arith, List, [], ◌∷◌}
use dota2_analysis.Backpressure.{adjust_for_backpressure, max_block_duration, recover_threshold}

-- A batch is from 1 to its base, a block from its base to the longest.
pub record IsInRange (base_batch base_block : ℕ) (rate : ℕ × ℕ) : Type 0 where
  pub some_batch : 1 ≤ rate.0
  pub batch_base : rate.0 ≤ base_batch
  pub block_base : base_block ≤ rate.1
  pub block_most : rate.1 ≤ max_block_duration

adjust-IsInRange :
    (pending base_batch base_block batch block : ℕ)
    → IsInRange base_batch base_block (batch, block)
    → IsInRange base_batch base_block
        (adjust_for_backpressure pending base_batch base_block (batch, block))
unfolding adjust_for_backpressure
adjust-IsInRange pending base_batch base_block batch block r = ground arith

-- One adjustment for each number of tasks in flight, the first of the list first.
abbrev pub adjust_all : ℕ → ℕ → List ℕ → ℕ × ℕ → ℕ × ℕ
adjust_all base_batch base_block [] rate = rate
adjust_all base_batch base_block (p ∷ ps) rate =
    adjust_all base_batch base_block ps (adjust_for_backpressure p base_batch base_block rate)

-- However the load changes, a batch keeps between 1 and its base, and a block between its base and
-- five seconds, when they are so at the start.
pub adjust_all-IsInRange :
    (base_batch base_block : ℕ) (ps : List ℕ) (rate : ℕ × ℕ)
    → IsInRange base_batch base_block rate
    → IsInRange base_batch base_block (adjust_all base_batch base_block ps rate)
adjust_all-IsInRange base_batch base_block [] rate r = r
adjust_all-IsInRange base_batch base_block (p ∷ ps) (batch, block) r =
    adjust_all-IsInRange base_batch base_block ps _
      (adjust-IsInRange p base_batch base_block batch block r)

-- How far a rate is from its base.
abbrev pub distance : ℕ → ℕ → ℕ × ℕ → ℕ
distance base_batch base_block rate = (base_batch - rate.0) + (rate.1 - base_block)

adjust_closer :
    (pending base_batch base_block batch block : ℕ)
    → pending < recover_threshold
    → IsInRange base_batch base_block (batch, block)
    → distance base_batch base_block
        (adjust_for_backpressure pending base_batch base_block (batch, block))
      ≤ distance base_batch base_block (batch, block) - 1
unfolding adjust_for_backpressure
adjust_closer pending base_batch base_block batch block h r = ground arith

abbrev pub calm : ℕ → (ℕ → ℕ × ℕ → ℕ × ℕ) → ℕ → ℕ × ℕ → ℕ × ℕ
calm zero f pending rate = rate
calm (suc n) f pending rate = calm n f pending (f pending rate)

-- With fewer tasks in flight than the threshold, a rate in that range returns to its base, in as many
-- adjustments as it is away from it.
pub adjust_recovers :
    (n pending base_batch base_block : ℕ) (rate : ℕ × ℕ)
    → pending < recover_threshold
    → IsInRange base_batch base_block rate
    → distance base_batch base_block rate ≤ n
    → calm n (λ p. adjust_for_backpressure p base_batch base_block) pending rate
      ≡ (base_batch, base_block)
adjust_recovers zero pending base_batch base_block (batch, block) h r d = ground arith
adjust_recovers (suc n) pending base_batch base_block (batch, block) h r d =
    adjust_recovers n pending base_batch base_block _ h
      (adjust-IsInRange pending base_batch base_block batch block r)
      (omega (arith, adjust_closer pending base_batch base_block batch block h r))
