-- ===== src/RedisProxy/Pool.antt =====
-- go-ingestion/internal/proxy/redisproxy/pool.go and lease.go: the operations of the pool.
use dota2_analysis.Base.{
  ℕ, zero, suc, ◌/◌, Bool, true, false, not, ◌⊎◌, inl, inr, List, [], ◌∷◌, ◌++◌, Option, none, some,
  ltb, ◌==◌, if◌then◌else◌, map,
}
use dota2_analysis.Base.Text.{Text, Text-discrete, codes}
use dota2_analysis.Link.{Session, call, pipeline}
use dota2_analysis.RedisQueue.Client.{is_empty}
use dota2_analysis.RedisProxy.{
  Server, Ranking, with_defaults, RateLimit, disabled, set_key, leased_key, lease_key, stats_key,
  limiter_key, cooldown_key, acquire_script, release_script, rate_limit_script,
  record_success_script, record_failure_script,
}

module _ (s : Server) where
  -- `max_failures` 0 stands for every value below 1.
  pub record Config : Type 0 where
    pub key_prefix : Text
    pub rate_limit : RateLimit
    pub ranking : Ranking s
    pub max_failures : ℕ

pub data ProxyError : Type 0 where
  nil_client prefix_required rate_limit_failed rate_limited no_token no_proxy acquire_failed :
      ProxyError
  release_failed zcard_failed read_failed replace_failed add_failed : ProxyError

pub record Lease : Type 0 where
  pub url : Text
  pub token : Text
  pub released : Bool

-- The duration of a lease in nanoseconds, 0 where it is not above 0, in whole seconds.
unfoldable pub ttl_seconds : ℕ → ℕ
ttl_seconds hold =
    let seconds = (if hold == 0 then 30000000000 else hold) / 1000000000 in
    if ltb seconds 1 then 1 else seconds

unfoldable pub window_millis : ℕ → ℕ
window_millis window =
    let millis = (if window == 0 then 1000000000 else window) / 1000000 in
    if ltb millis 1 then 1000 else millis

unfoldable pub is_listed : Text → List Text → Bool
is_listed url [] = false
is_listed url (u ∷ urls) = elim (Text-discrete u url) [ yes _ ↦ true | no _ ↦ is_listed url urls ]

unfoldable pub not_listed : List Text → List Text → List Text
unfolding is_listed
not_listed urls [] = []
not_listed urls (c ∷ cs) =
    let rest = not_listed urls cs in if is_listed c urls then rest else c ∷ rest

-- The keys without those that came before.
unfoldable pub unique : (before keys : List Text) → List Text
unfolding is_listed
unique before [] = []
unique before (k ∷ ks) =
    let skip = unique before ks in
    let keep = unique (k ∷ before) ks in if is_listed k before then skip else k ∷ keep

module _ (s : Server) where
  unfoldable pub new : (has_client : Bool) → Config s → ProxyError ⊎ Config s
  unfolding is_empty with_defaults
  new has_client cfg =
      if not has_client
      then inl nil_client
      else if is_empty cfg.key_prefix
      then inl prefix_required
      else inr (record cfg { ranking = with_defaults s cfg.ranking })

module _ (s : Server) (cfg : Config s) where
  unfoldable pub on_limit :
      Option ℕ × Session s.Db
      → (Session s.Db → (ProxyError ⊎ Lease) × Session s.Db)
      → (ProxyError ⊎ Lease) × Session s.Db
  on_limit (none, st) next = (inl rate_limit_failed, st)
  on_limit (some zero, st) next = (inl rate_limited, st)
  on_limit (some (suc n), st) next = next st

  unfoldable pub on_acquired :
      (token : Text) → Option (Option Text) × Session s.Db → (ProxyError ⊎ Lease) × Session s.Db
  unfolding is_empty
  on_acquired token (none, st) = (inl acquire_failed, st)
  on_acquired token (some none, st) = (inl no_proxy, st)
  on_acquired token (some (some url), st) = (
    (if is_empty url
        then inl no_proxy
        else inr (record { url = url; token = token; released = false })),
    st,
  )

  unfoldable pub acquire_with :
      (hold seed now : ℕ) → Option Text → Session s.Db → (ProxyError ⊎ Lease) × Session s.Db
  unfolding call ttl_seconds on_acquired set_key leased_key lease_key acquire_script
  acquire_with hold seed now none st = (inl no_token, st)
  acquire_with hold seed now (some token) st = on_acquired token (
      call
        (acquire_script s (set_key cfg.key_prefix) (leased_key cfg.key_prefix)
          (lease_key cfg.key_prefix token) (ttl_seconds hold) 20 seed now)
        st)

  -- `Acquire`, with what the random numbers give: a token, or an error.
  unfoldable pub acquire :
      (hold seed now : ℕ) → Option Text → Session s.Db → (ProxyError ⊎ Lease) × Session s.Db
  unfolding disabled call on_limit window_millis limiter_key rate_limit_script acquire_with
  acquire hold seed now token st =
      if disabled cfg.rate_limit
      then acquire_with hold seed now token st
      else on_limit
          (call
            (rate_limit_script s (limiter_key cfg.key_prefix) cfg.rate_limit.burst
              (window_millis cfg.rate_limit.window))
            st)
          (acquire_with hold seed now token)

  unfoldable pub on_released : Option ℕ × Session s.Db → Option ProxyError × Session s.Db
  on_released (none, st) = (some release_failed, st)
  on_released (some n, st) = (none, st)

  -- `Release` of a lease; a second call does nothing, even after an error.
  unfoldable pub release :
      (now : ℕ) → Lease → Session s.Db → Option ProxyError × Lease × Session s.Db
  unfolding call on_released leased_key lease_key release_script
  release now l st =
      if l.released
      then (none, l, st)
      else let (e, st') = on_released (
          call (release_script s now (leased_key cfg.key_prefix) (lease_key cfg.key_prefix l.token))
            st) in
        (e, record l { released = true }, st')

  -- The lease drops the errors of both marks.
  unfoldable pub mark_success : Lease → Session s.Db → Session s.Db
  unfolding call set_key stats_key record_success_script
  mark_success l st =
      (call
        (record_success_script s (set_key cfg.key_prefix) (stats_key cfg.key_prefix l.url) l.url
          cfg.ranking.success_boost)
        st).1

  unfoldable pub or_default_cooldown : Option ℕ → ℕ
  or_default_cooldown none = 300
  or_default_cooldown (some n) = if n == 0 then 300 else n

  unfoldable pub or_unspecified : Option Text → Text
  or_unspecified none = codes "unspecified"
  or_unspecified (some cause) = cause

  -- `cooldown` is the setting of the environment, if it is a number.
  unfoldable pub mark_failure :
      (now : ℕ) (cooldown : Option ℕ) → Lease → Option Text → Session s.Db → Session s.Db
  unfolding call set_key stats_key cooldown_key record_failure_script or_default_cooldown
      or_unspecified
  mark_failure now cooldown l cause st =
      (call
        (record_failure_script s (set_key cfg.key_prefix) (stats_key cfg.key_prefix l.url)
          (cooldown_key cfg.key_prefix) l.url cfg.ranking.failure_penalty cfg.max_failures
          (or_unspecified cause) (or_default_cooldown cooldown) now)
        st).1

  unfoldable pub size : Session s.Db → (ProxyError ⊎ ℕ) × Session s.Db
  unfolding call set_key
  size st =
      let (n, st') = call (λ db. (s.zcard (set_key cfg.key_prefix) db, db)) st in
      ((elim n [ none ↦ inl zcard_failed | some k ↦ inr k ]), st')

  unfoldable pub weighted : List Text → List (Text × s.Weight)
  weighted urls = map (λ u. (u, cfg.ranking.initial_weight)) urls

  unfoldable pub add_all : List Text → s.Db → s.Db
  unfolding weighted set_key
  add_all [] db = db
  add_all (u ∷ urls) db = s.zadd (set_key cfg.key_prefix) (weighted (u ∷ urls)) db

  unfoldable pub del_all : List Text → s.Db → s.Db
  del_all [] db = db
  del_all (k ∷ ks) db = s.del (k ∷ ks) db

  unfoldable pub drop_cooldown : List Text → s.Db → s.Db
  unfolding cooldown_key
  drop_cooldown [] db = db
  drop_cooldown (u ∷ urls) db = drop_cooldown urls (s.zrem_time (cooldown_key cfg.key_prefix) u db)

  -- The transaction of `Replace`, which is carried out as a whole.
  unfoldable pub replace_all : (healthy current in_cooldown : List Text) → s.Db → s.Db
  unfolding not_listed unique stats_key set_key add_all del_all drop_cooldown
  replace_all healthy current in_cooldown db =
      let stale = not_listed healthy in_cooldown in
      let stats = map (stats_key cfg.key_prefix) (not_listed healthy current ++ stale) in
      drop_cooldown stale
        (del_all (unique [] stats) (add_all healthy (s.del (set_key cfg.key_prefix ∷ []) db)))

  unfoldable pub on_replaced : Option (Unit {0}) × Session s.Db → Option ProxyError × Session s.Db
  on_replaced (none, st) = (some replace_failed, st)
  on_replaced (some u, st) = (none, st)

  unfoldable pub on_cooling :
      (healthy current : List Text)
      → Option (List Text) × Session s.Db
      → Option ProxyError × Session s.Db
  unfolding call replace_all on_replaced
  on_cooling healthy current (none, st) = (some read_failed, st)
  on_cooling healthy current (some cooling, st) =
      on_replaced (call (λ db. (tt, replace_all healthy current cooling db)) st)

  unfoldable pub on_current :
      (healthy : List Text) → Option (List Text) × Session s.Db → Option ProxyError × Session s.Db
  unfolding call cooldown_key on_cooling
  on_current healthy (none, st) = (some read_failed, st)
  on_current healthy (some current, st) =
      on_cooling healthy current
        (call (λ db. (s.zrange_times (cooldown_key cfg.key_prefix) db, db)) st)

  unfoldable pub replace : List Text → Session s.Db → Option ProxyError × Session s.Db
  unfolding call set_key on_current
  replace healthy st =
      on_current healthy (call (λ db. (s.zrange (set_key cfg.key_prefix) db, db)) st)

  unfoldable pub on_added : Option (Unit {0}) × Session s.Db → Option ProxyError × Session s.Db
  on_added (none, st) = (some add_failed, st)
  on_added (some u, st) = (none, st)

  unfoldable pub add : List Text → Session s.Db → Option ProxyError × Session s.Db
  unfolding call set_key weighted on_added
  add [] st = (none, st)
  add (u ∷ urls) st =
      on_added (call (λ db. (tt, s.zadd_nx (set_key cfg.key_prefix) (weighted (u ∷ urls)) db)) st)

  unfoldable pub restore : Text → List (s.Db → s.Db)
  unfolding set_key stats_key cooldown_key
  restore url =
      s.zadd (set_key cfg.key_prefix) ((url, cfg.ranking.initial_weight) ∷ [])
      ∷ s.hset (stats_key cfg.key_prefix url) (codes "consecutive_fail") (codes "0")
      ∷ s.zrem_time (cooldown_key cfg.key_prefix) url
      ∷ []

  unfoldable pub on_stats : Text → Option ℕ × Session s.Db → Session s.Db
  unfolding pipeline restore call cooldown_key
  on_stats url (none, st) = st
  on_stats url (some zero, st) =
      (call (λ db. (tt, s.zrem_time (cooldown_key cfg.key_prefix) url db)) st).1
  on_stats url (some (suc n), st) = (pipeline (restore url) st).1

  unfoldable pub recover_urls : List Text → Session s.Db → Session s.Db
  unfolding on_stats call stats_key
  recover_urls [] st = st
  recover_urls (u ∷ urls) st =
      recover_urls urls
        (on_stats u (call (λ db. (s.exists (stats_key cfg.key_prefix u) db, db)) st))

  unfoldable pub on_due : Option (List Text) × Session s.Db → Session s.Db
  unfolding recover_urls
  on_due (none, st) = st
  on_due (some urls, st) = recover_urls urls st

  -- `recoverFromCooldown`, which a ticker calls.
  unfoldable pub recover_from_cooldown : (now : ℕ) → Session s.Db → Session s.Db
  unfolding call cooldown_key on_due
  recover_from_cooldown now st =
      on_due (call (λ db. (s.zrangebyscore (cooldown_key cfg.key_prefix) now 50 db, db)) st)
