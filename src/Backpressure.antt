-- ===== src/Backpressure.antt =====
-- `adjustForBackpressure` of go-ingestion/internal/queue/redisstreams/queue.go: how a subscriber
-- changes the size of its batches and the time it blocks with the number of tasks in flight.
-- Durations are nanoseconds; batches and durations are not negative.
pub mod Rates
use dota2_analysis.Base.{ℕ, ◌+◌, ◌*◌, ◌/◌, Bool, true, false, ◌||◌, ltb, if◌then◌else◌}

abbrev pub max_block_duration : ℕ
max_block_duration = 5000000000

abbrev pub recover_threshold : ℕ
recover_threshold = 1000

-- The built-in `min` and `max`.
abbrev pub min_of : ℕ → ℕ → ℕ
min_of a b = if ltb b a then b else a

abbrev pub max_of : ℕ → ℕ → ℕ
max_of a b = if ltb a b then b else a

unfoldable pub adjust_for_backpressure : ℕ → ℕ → ℕ → ℕ × ℕ → ℕ × ℕ
adjust_for_backpressure pending base_batch base_block (batch, block) =
    if ltb 10000 pending
    then (max_of (batch / 2) 1, min_of (block * 2) max_block_duration)
    else if ltb pending recover_threshold
    then (if ltb batch base_batch || ltb base_block block
        then (
          min_of (batch + 1) base_batch,
          (if ltb base_block block then max_of (block / 2) base_block else block),
        )
        else (batch, block))
    else (batch, block)
