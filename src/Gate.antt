-- ===== src/Gate.antt =====
-- go-ingestion/internal/enrich/gate/gate.go: whether an enrichment source is due, by the time of its
-- last run that Redis holds.
pub mod Ages
use dota2_analysis.Base.{
  ℕ, ◌+◌, ◌*◌, ◌/◌, Bool, true, false, ◌&&◌, ◌++◌, Option, none, some, ltb, leb, ◌==◌,
  if◌then◌else◌,
}
use dota2_analysis.Base.Text.{Text, codes}

-- Times and durations are numbers of nanoseconds.
abbrev pub second : ℕ
second = 1000000000

abbrev pub minute : ℕ
minute = 60 * second

pub record RunOutcome : Type 0 where
  pub success : Bool
  pub err : Text
  pub at : ℕ

pub data Mode : Type 0 where
  interval once : Mode

pub record Config : Type 0 where
  pub prefix : Text
  pub min_age : ℕ
  pub ttl : ℕ
  pub mode : Mode

-- A string that Redis holds under a key of the gate, by what `time.Parse` of RFC 3339 makes of it.
pub data Stored : Type 0 where
  stamp : (seconds : ℕ) → Stored
  garbled : Text → Stored

-- `t.Format(time.RFC3339)`, which drops the fraction of the second.
unfoldable pub format_time : ℕ → Stored
format_time t = stamp (t / second)

-- `time.Parse(time.RFC3339, v)`
unfoldable pub parse_time : Stored → Option ℕ
parse_time (stamp seconds) = some (seconds * second)
parse_time (garbled _) = none

pub data GetReply : Type 0 where
  nil failed : GetReply
  value : Stored → GetReply

-- The commands EXISTS, GET and SET of the Redis client, each at the time of its call. `none` and
-- `false` are errors. An expiration of 0 is none.
pub record RedisClient : Type 1 where
  pub Db : Type 0
  pub exists : (now : ℕ) (key : Text) → Db → Option ℕ
  pub get : (now : ℕ) (key : Text) → Db → GetReply
  pub set : (now : ℕ) (key : Text) → Stored → (expiration : ℕ) → Db → Bool × Db

unfoldable pub suffix : Mode → Text
suffix interval = codes "run"
suffix once = codes "done"

unfoldable pub key : Config → Text → Text
unfolding suffix
key cfg name = cfg.prefix ++ (codes ":" ++ (suffix cfg.mode ++ (codes ":" ++ name)))

-- The end of `ShouldRun` in the mode `Interval`.
unfoldable pub is_due : Config → ℕ → GetReply → Option Bool
unfolding parse_time
is_due cfg now nil = some true
is_due cfg now failed = none
is_due cfg now (value v) = elim (parse_time v) [
  | none ↦ some true
  | some last_at ↦ some (leb (last_at + cfg.min_age) now)
]

unfoldable pub is_absent : Option ℕ → Option Bool
is_absent none = none
is_absent (some n) = some (n == 0)

-- The expiration that `RecordRun` sets, after a failure five minutes.
unfoldable pub expiration : Config → RunOutcome → ℕ
expiration cfg outcome =
    if outcome.success
    then elim cfg.mode [ once ↦ cfg.ttl | interval ↦ cfg.min_age ]
    else 5 * minute

-- The interface `RunGate`; `none` and `false` are errors.
pub record RunGate : Type 1 where
  pub Store : Type 0
  pub should_run : (now : ℕ) (name : Text) → Store → Option Bool
  pub record_run : (now : ℕ) (name : Text) → RunOutcome → Store → Bool × Store

module _ (r : RedisClient) (cfg : Config) where
  unfoldable pub should_run : ℕ → Text → r.Db → Option Bool
  unfolding key is_due is_absent
  should_run now name db = elim cfg.mode [
    | once ↦ is_absent (r.exists now (key cfg name) db)
    | interval ↦ is_due cfg now (r.get now (key cfg name) db)
  ]

  unfoldable pub record_run : ℕ → Text → RunOutcome → r.Db → Bool × r.Db
  unfolding key expiration format_time
  record_run now name outcome db =
      r.set now (key cfg name) (format_time outcome.at) (expiration cfg outcome) db

  abbrev pub redis_gate : RunGate
  redis_gate = record { Store = r.Db; should_run = should_run; record_run = record_run }

-- `Always`
abbrev pub always : RunGate
always = record {
  Store = Unit {0};
  should_run = λ now name s. some true;
  record_run = λ now name outcome s. (true, s);
}
