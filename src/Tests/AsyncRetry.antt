-- ===== src/Tests/AsyncRetry.antt =====
-- The loops that promote retries: go-ingestion/internal/queue/redisstreams/queue.go.
use dota2_analysis.Base.{ℕ, ◌≡◌, refl, true, false, ◌||◌, [], ◌∷◌, ◌++◌, ◌==◌, All}
use dota2_analysis.RedisQueue.Async.{
  running, waiting, System, fresh, enable_async_retry, stop_async_retry, enables, stops, selects,
  Reach, here, next,
}
use dota2_analysis.RedisQueue.Async.Leaves.{CanLeave, Reach-CanLeave}
use dota2_analysis.RedisQueue.Async.Doubled.{restart_doubles}

abbrev enabled : System
enabled = record {
  started = true;
  stop_ch = 1;
  made = 1;
  closed = λ ch. ch == 0;
  loops = running ∷ [];
}

enabled_reached : Reach fresh enabled
unfolding enable_async_retry
enabled_reached = next fresh fresh enabled (here fresh) (enables fresh)

abbrev stopped : System
stopped = record enabled {
  started = false;
  closed = λ ch. ch == 1 || ch == 0;
  loops = waiting 1 ∷ [];
}

stopped_reached : Reach fresh stopped
unfolding stop_async_retry
stopped_reached =
    let selecting : System = record enabled { loops = waiting 1 ∷ [] } in
    next fresh selecting stopped
      (next fresh enabled selecting enabled_reached (selects enabled [] [] refl)) (stops selecting)

Reach-CanLeave_example :
    (stopped.closed stopped.stop_ch ≡ true) × All (CanLeave stopped.closed) stopped.loops
Reach-CanLeave_example = Reach-CanLeave stopped_reached refl

restart_doubles_example :
    (s' : System) × (ch : ℕ) × Reach (enable_async_retry (stop_async_retry enabled)) s'
    × (s'.closed ch ≡ false)
    × (s'.loops ≡ [] ++ waiting ch ∷ waiting ch ∷ [])
restart_doubles_example = restart_doubles [] enabled_reached refl refl
