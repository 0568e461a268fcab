-- ===== src/RedisQueue/Async.antt =====
-- The goroutine of go-ingestion/internal/queue/redisstreams/queue.go that promotes delayed retries:
-- `EnableAsyncRetry`, `StopAsyncRetry` and the turns of `asyncRetryLoop`, which may interleave.
pub mod Leaves
pub mod Doubled
use dota2_analysis.Base.{
  ℕ, ◌+◌, ◌≡◌, Bool, true, false, not, ◌||◌, List, [], ◌∷◌, ◌++◌, ◌==◌, if◌then◌else◌,
}

-- A loop is about to evaluate the channel of its `select`, for which it reads `asyncStopCh`, or it
-- waits in the `select` on a channel. What `matureAsyncRetries` does comes before the next `select`.
pub data Loop : Type 0 where
  running : Loop
  waiting : (ch : ℕ) → Loop

-- Channels are numbered as they are made; 0 is the nil channel of a new queue, on which no loop waits.
pub record System : Type 0 where
  pub started : Bool
  pub stop_ch : ℕ
  pub made : ℕ
  pub closed : ℕ → Bool
  pub loops : List Loop

abbrev pub fresh : System
fresh = record { started = false; stop_ch = 0; made = 0; closed = λ ch. ch == 0; loops = [] }

unfoldable pub enable_async_retry : System → System
enable_async_retry s = if s.started then s else record s {
  started = true;
  stop_ch = s.made + 1;
  made = s.made + 1;
  loops = s.loops ++ running ∷ [];
}

unfoldable pub stop_async_retry : System → System
stop_async_retry s =
    if not s.started
    then s
    else record s { started = false; closed = λ ch. ch == s.stop_ch || s.closed ch }

-- A call, or a turn of one of the loops: it enters its `select`, its ticker fires, or it leaves as its
-- channel is closed. Where the ticker has fired and the channel is closed, either may happen.
pub data Step : System → System → Type 0 where
  enables : (s : System) → Step s (enable_async_retry s)
  stops : (s : System) → Step s (stop_async_retry s)
  selects :
      (s : System) (xs ys : List Loop)
      → s.loops ≡ xs ++ running ∷ ys
      → Step s (record s { loops = xs ++ waiting s.stop_ch ∷ ys })
  ticks :
      (s : System) (xs ys : List Loop) (ch : ℕ)
      → s.loops ≡ xs ++ waiting ch ∷ ys
      → Step s (record s { loops = xs ++ running ∷ ys })
  leaves :
      (s : System) (xs ys : List Loop) (ch : ℕ)
      → s.loops ≡ xs ++ waiting ch ∷ ys
      → s.closed ch ≡ true
      → Step s (record s { loops = xs ++ ys })

pub data Reach : System → System → Type 0 where
  here : (s : System) → Reach s s
  next : (a b c : System) → Reach a b → Step b c → Reach a c
