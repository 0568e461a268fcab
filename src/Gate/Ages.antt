-- ===== src/Gate/Ages.antt =====
-- When a source is due again after a run that the gate has recorded.
use dota2_analysis.Base.{
  ℕ, ◌+◌, ◌*◌, ◌/◌, ◌≤◌, ◌≡◌, Bool, true, false, ◌&&◌, ◌||◌, some, ltb, leb, arith, if◌then◌else◌,
}
use dota2_analysis.Base.Text.{Text}
use dota2_analysis.Gate.{
  second, minute, RunOutcome, interval, once, Config, Stored, format_time, parse_time, nil, value,
  RedisClient, key, is_due, is_absent, expiration, should_run, record_run,
}

abbrev pub expired : (ttl since now : ℕ) → Bool
expired ttl since now = ltb 0 ttl && leb (since + ttl) now

-- SET of a key with an expiration, and GET and EXISTS of that key until it expires and after.
pub record Expires (r : RedisClient) : Type 0 where
  pub get_set :
      (now later : ℕ) (k : Text) (v : Stored) (ttl : ℕ) (db : r.Db)
      → (r.set now k v ttl db).0 ≡ true
      → now ≤ later
      → r.get later k (r.set now k v ttl db).1 ≡ (if expired ttl now later then nil else value v)
  pub exists_set :
      (now later : ℕ) (k : Text) (v : Stored) (ttl : ℕ) (db : r.Db)
      → (r.set now k v ttl db).0 ≡ true
      → now ≤ later
      → r.exists later k (r.set now k v ttl db).1 ≡ some (if expired ttl now later then 0 else 1)

-- What the gate answers later, from the outcome of a run that was recorded at `since`.
abbrev pub due : Config → RunOutcome → (since later : ℕ) → Bool
due cfg outcome since later = elim cfg.mode [
  | once ↦ if outcome.success then expired cfg.ttl since later else leb (since + 5 * minute) later
  | interval ↦
      leb (outcome.at / second * second + cfg.min_age) later
      || (if outcome.success then false else leb (since + 5 * minute) later)
]

module _ (r : RedisClient) (cfg : Config) (law : Expires r) where
  -- Let Redis keep what is set until it expires, and let a run that began at `outcome.at` be recorded
  -- at `since` without an error. Then in the mode Interval the source is due once its minimal age has
  -- passed since the begin of the run, to the second, and also five minutes after `since` where the
  -- run has failed; in the mode Once it is due when the time to live has passed, never where that
  -- is 0, and five minutes after `since` where the run has failed.
  pub should_run-record_run :
      (name : Text) (outcome : RunOutcome) (since later : ℕ) (db : r.Db)
      → outcome.at ≤ since
      → since ≤ later
      → (record_run r cfg since name outcome db).0 ≡ true
      → should_run r cfg later name (record_run r cfg since name outcome db).1
        ≡ some (due cfg outcome since later)
  unfolding should_run record_run is_due is_absent expiration format_time parse_time
  should_run-record_run name outcome since later db began after ok = ground (
    arith,
    law.get_set since later (key cfg name) (format_time outcome.at) (expiration cfg outcome) db ok
        after,
    law.exists_set since later (key cfg name) (format_time outcome.at) (expiration cfg outcome) db
        ok after,
  )
