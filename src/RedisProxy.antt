-- ===== src/RedisProxy.antt =====
-- go-ingestion/internal/proxy/redisproxy: the pool of proxies in Redis. This file: keys, the
-- configuration and the Lua scripts of redisproxy/lua; `Pool` has the operations.

pub mod Exclusive
pub mod Laws
pub mod Pool
pub mod Runs
pub mod Steps
use dota2_analysis.Base.{
  ℕ, zero, suc, ◌+◌, ◌-◌, ◌*◌, ◌/◌, Bool, true, false, ◌&&◌, ◌||◌, List, [], ◌∷◌, ◌++◌, Option,
  none, some, ltb, leb, ◌==◌, if◌then◌else◌, length, get_elem?,
}
use dota2_analysis.Base.Text.{Text, Text-discrete, codes}

-- The commands of Redis that are sent. Scores are weights, which are floats, or times in seconds; the
-- two kinds of sorted sets, strings and hashes have commands of their own, as a key has one type.
-- `get` reads a string that expires; `pick` is the choice of `math.random` under a seed, from 0. The
-- ranges of ranks are written with their length, the scores to remove with the bound that they stay below.
pub record Server : Type 1 where
  pub Db : Type 0
  pub Weight : Type 0
  pub literal : ℕ → Weight
  pub is_zero : Weight → Bool
  pub negate : Weight → Weight
  pub zadd : (key : Text) → List (Text × Weight) → Db → Db
  pub zadd_nx : (key : Text) → List (Text × Weight) → Db → Db
  pub zincrby : (key : Text) → Weight → (member : Text) → Db → Db
  pub zrem : (key member : Text) → Db → Db
  pub zscore : (key member : Text) → Db → Option Weight
  pub zcard : (key : Text) → Db → ℕ
  pub zrange : (key : Text) → Db → List Text
  pub zrevrange : (key : Text) (start count : ℕ) → Db → List Text
  pub zadd_time : (key : Text) (score : ℕ) (member : Text) → Db → Db
  pub zrem_time : (key member : Text) → Db → Db
  pub zscore_time : (key member : Text) → Db → Option ℕ
  pub zrange_times : (key : Text) → Db → List Text
  pub zremrangebyscore : (key : Text) (below : ℕ) → Db → Db
  pub zrangebyscore : (key : Text) (max count : ℕ) → Db → List Text
  pub get : (now : ℕ) (key : Text) → Db → Option Text
  pub set_ex : (now : ℕ) (key value : Text) (ttl : ℕ) → Db → Db
  pub incr : (key : Text) → Db → ℕ × Db
  pub pexpire : (key : Text) (millis : ℕ) → Db → Db
  pub hincrby : (key field : Text) (n : ℕ) → Db → ℕ × Db
  pub hset : (key field value : Text) → Db → Db
  pub exists : (key : Text) → Db → ℕ
  pub del : List Text → Db → Db
  pub pick : (seed n : ℕ) → ℕ

-- `keys`
unfoldable pub set_key : Text → Text
set_key prefix = prefix ++ codes ":set"

unfoldable pub leased_key : Text → Text
leased_key prefix = prefix ++ codes ":leased"

unfoldable pub lease_key : (prefix token : Text) → Text
lease_key prefix token = prefix ++ (codes ":lease:" ++ token)

unfoldable pub stats_key : (prefix url : Text) → Text
stats_key prefix url = prefix ++ (codes ":stats:" ++ url)

unfoldable pub limiter_key : Text → Text
limiter_key prefix = prefix ++ codes ":limiter"

unfoldable pub cooldown_key : Text → Text
cooldown_key prefix = prefix ++ codes ":cooldown"

-- In nanoseconds; 0 stands for every value below 1.
pub record RateLimit : Type 0 where
  pub rate_per_sec : ℕ
  pub burst : ℕ
  pub window : ℕ

unfoldable pub disabled : RateLimit → Bool
disabled r = r.rate_per_sec == 0 || r.burst == 0

module _ (s : Server) where
  pub record Ranking : Type 0 where
    pub failure_penalty : s.Weight
    pub success_boost : s.Weight
    pub initial_weight : s.Weight

module _ (s : Server) where
  unfoldable pub with_defaults : Ranking s → Ranking s
  with_defaults r = record r {
    initial_weight = if s.is_zero r.initial_weight then s.literal 100 else r.initial_weight;
    success_boost = if s.is_zero r.success_boost then s.literal 1 else r.success_boost;
    failure_penalty = if s.is_zero r.failure_penalty then s.literal 5 else r.failure_penalty;
  }

  unfoldable pub is_leased : (leased url : Text) → s.Db → Bool
  is_leased leased url db = elim (s.zscore_time leased url db) [ none ↦ false | some _ ↦ true ]

  -- The first candidates that are not leased, as many as there is room for.
  unfoldable pub unleased : (leased : Text) (room : ℕ) → List Text → s.Db → List Text
  unfolding is_leased
  unleased leased zero cs db = []
  unleased leased (suc room) [] db = []
  unleased leased (suc room) (c ∷ cs) db =
      let skip = unleased leased (suc room) cs db in
      let take = unleased leased room cs db in if is_leased leased c db then skip else c ∷ take

  -- The windows from rank `start` on, of which so many are left. A window with candidates that are
  -- all leased passes on to the next; without candidates the scan ends.
  unfoldable pub on_window : List Text → List Text → List Text → List Text
  on_window [] available next = []
  on_window (c ∷ cs) [] next = next
  on_window (c ∷ cs) (a ∷ available) next = a ∷ available

  unfoldable pub scan : (set leased : Text) (top windows start : ℕ) → s.Db → List Text
  unfolding unleased on_window
  scan set leased top zero start db = []
  scan set leased top (suc windows) start db =
      let size = top * 2 in
      let candidates = s.zrevrange set start size db in
      on_window candidates (unleased leased top candidates db)
        (scan set leased top windows (start + size) db)

  unfoldable pub lease_out :
      (now : ℕ) (leased lease url : Text) (ttl : ℕ) → s.Db → Option Text × s.Db
  lease_out now leased lease url ttl db =
      (some url, s.set_ex now lease url ttl (s.zadd_time leased (now + ttl) url db))

  unfoldable pub on_pick :
      (now : ℕ) (leased lease : Text) (ttl : ℕ) → Option Text → s.Db → Option Text × s.Db
  unfolding lease_out
  on_pick now leased lease ttl none db = (none, db)
  on_pick now leased lease ttl (some url) db = lease_out now leased lease url ttl db

  -- acquire.lua
  unfoldable pub acquire_script :
      (set leased lease : Text) (ttl top seed now : ℕ) → s.Db → Option Text × s.Db
  unfolding scan on_pick
  acquire_script set leased lease ttl top seed now db =
      let cleaned = s.zremrangebyscore leased now db in
      let available = scan set leased top 10 0 cleaned in
      on_pick now leased lease ttl (get_elem? available (s.pick seed (length available))) cleaned

  unfoldable pub on_lease : (leased lease : Text) → Option Text → s.Db → ℕ × s.Db
  on_lease leased lease none db = (0, db)
  on_lease leased lease (some url) db = (1, s.del (lease ∷ []) (s.zrem_time leased url db))

  -- release.lua
  unfoldable pub release_script : (now : ℕ) (leased lease : Text) → s.Db → ℕ × s.Db
  unfolding on_lease
  release_script now leased lease db = on_lease leased lease (s.get now lease db) db

  -- rate_limit.lua
  unfoldable pub rate_limit_script : (key : Text) (burst window_ms : ℕ) → s.Db → ℕ × s.Db
  rate_limit_script key burst window_ms db =
      let window = if ltb window_ms 1 then 1000 else window_ms in
      let (n, db₁) = s.incr key db in
      let db₂ = if n == 1 then s.pexpire key window db₁ else db₁ in
      ((if ltb burst n then 0 else 1), db₂)

  unfoldable pub boost : (set url : Text) → s.Weight → Option s.Weight → s.Db → s.Db
  boost set url w none db = db
  boost set url w (some _) db = s.zincrby set w url db

  -- record_success.lua
  unfoldable pub record_success_script : (set stats url : Text) → s.Weight → s.Db → ℕ × s.Db
  unfolding boost
  record_success_script set stats url w db =
      let counted = (s.hincrby stats (codes "success") 1 db).1 in
      let reset = s.hset stats (codes "consecutive_fail") (codes "0") counted in
      (1, boost set url w (s.zscore set url reset) reset)

  -- record_failure.lua
  unfoldable pub record_failure_script :
      (set stats cooldown url : Text)
      → s.Weight
      → (max_fails : ℕ) (last_error : Text) (cool_secs now : ℕ) → s.Db
      → ℕ × s.Db
  record_failure_script set stats cooldown url penalty max_fails last_error cool_secs now db =
      let counted = (s.hincrby stats (codes "fail") 1 db).1 in
      let (streak, db₁) = s.hincrby stats (codes "consecutive_fail") 1 counted in
      let db₂ = s.hset stats (codes "last_error") last_error db₁ in
      if ltb 0 max_fails && leb max_fails streak
      then (1, s.zadd_time cooldown (now + cool_secs) url (s.zrem set url db₂))
      else (0, s.zincrby set (s.negate penalty) url db₂)
