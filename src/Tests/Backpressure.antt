-- ===== src/Tests/Backpressure.antt =====
-- Rates of a subscriber: go-ingestion/internal/queue/redisstreams/queue.go.
use dota2_analysis.Base.{◌≡◌, refl, arith}
use dota2_analysis.Backpressure.{adjust_for_backpressure}
use dota2_analysis.Backpressure.Rates.{IsInRange}

loaded_slows : adjust_for_backpressure 20000 10 1000 (10, 1000) ≡ (5, 2000)
unfolding adjust_for_backpressure
loaded_slows = refl

base_InRange : IsInRange 10 1000 (10, 1000)
base_InRange = record {
  some_batch = omega arith;
  batch_base = omega arith;
  block_base = omega arith;
  block_most = omega arith;
}

slow_InRange : IsInRange 3 4 (1, 6)
slow_InRange = record {
  some_batch = omega arith;
  batch_base = omega arith;
  block_base = omega arith;
  block_most = omega arith;
}
