-- ===== src/RedisProxy/Steps.antt =====
-- The clients of the pool in Redis as steps on its state, and what holds after any number of them.
use dota2_analysis.Base.{
  ℕ, zero, suc, ◌≤◌, ◌+◌, ◌∙◌, ◌⊎◌, inl, inr, Option, none, some, ltb, leb, ◌==◌, ◌&&◌, Bool-cases,
}
use dota2_analysis.Base.Text.{Text, codes}
use dota2_analysis.Link.{Session, called}
use dota2_analysis.RedisProxy.{
  Server, disabled, set_key, stats_key, limiter_key, cooldown_key, rate_limit_script, boost,
  record_success_script, record_failure_script,
}
use dota2_analysis.RedisProxy.Exclusive.{IsExclusive, later-IsExclusive, same-IsExclusive}
use dota2_analysis.RedisProxy.Laws.{Laws, limiter_key-lease_key, cooldown_key-leased_key}
use dota2_analysis.RedisProxy.Pool.{
  Config, ProxyError, Lease, ttl_seconds, window_millis, acquire, acquire_with, on_acquired,
  on_limit, release, on_released, mark_success, mark_failure, or_default_cooldown, or_unspecified,
}
use dota2_analysis.RedisProxy.Runs.{acquire_script-Good, release_script-Good, alike-Good}

module _ (s : Server) (cfg : Config s) where
  -- The time in seconds, and the server with the fates of the round trips to come.
  abbrev pub State : Type 0
  State = ℕ × Session s.Db

  -- Time passes, or a client takes, returns or marks a lease, which may be one that has expired.
  pub data Step : State → State → Type 0 where
    waits : (now later : ℕ) (st : Session s.Db) → now ≤ later → Step (now, st) (later, st)
    acquires :
        (now hold seed : ℕ) (token : Option Text) (st : Session s.Db)
        → Step (now, st) (now, (acquire s cfg hold seed now token st).1)
    releases :
        (now : ℕ) (l : Lease) (st : Session s.Db) → Step (now, st) (now, (release s cfg now l st).2)
    succeeds :
        (now : ℕ) (l : Lease) (st : Session s.Db) → Step (now, st) (now, mark_success s cfg l st)
    fails :
        (now : ℕ) (cooldown : Option ℕ) (l : Lease) (cause : Option Text) (st : Session s.Db)
        → Step (now, st) (now, mark_failure s cfg now cooldown l cause st)

  pub data Reach : State → State → Type 0 where
    here : (a : State) → Reach a a
    after : (a b c : State) → Step a b → Reach b c → Reach a c

module _ (s : Server) (w : Laws s) (cfg : Config s) where
  abbrev Good : ℕ → s.Db → Type 0
  Good now db = IsExclusive s w cfg.key_prefix now db

  limit-Good :
      (now burst millis : ℕ) (db : s.Db)
      → Good now db
      → Good now (rate_limit_script s (limiter_key cfg.key_prefix) burst millis db).1
  unfolding rate_limit_script
  limit-Good now burst millis db x =
      let key = limiter_key cfg.key_prefix in
      let counted : Good now (s.incr key db).1 =
        same-IsExclusive s w cfg.key_prefix now db _
          (λ t. w.incr_ne key _ db (limiter_key-lease_key cfg.key_prefix t))
          (λ m e lt p. w.incr_time key _ m db ∙ p) x in
      elim (Bool-cases ((s.incr key db).0 == 1)) [
        | inl t ↦
            rw (t, rate_limit_script)
              (same-IsExclusive s w cfg.key_prefix now (s.incr key db).1 _
                (λ u.
                  w.pexpire_ne key _ _ (s.incr key db).1 (limiter_key-lease_key cfg.key_prefix u))
                (λ m e lt p. w.pexpire_time key _ m _ (s.incr key db).1 ∙ p) counted)
        | inr f ↦ rw (f, rate_limit_script) counted
      ]

  on_acquired-Good :
      (now : ℕ) (token : Text) (r : Option (Option Text) × Session s.Db)
      → Good now r.1.db
      → Good now (on_acquired s cfg token r).1.db
  unfolding on_acquired
  on_acquired-Good now token (none, st) x = x
  on_acquired-Good now token (some none, st) x = x
  on_acquired-Good now token (some (some u), st) x = x

  acquire_with-Good :
      (now hold seed : ℕ) (token : Option Text) (st : Session s.Db)
      → Good now st.db
      → Good now (acquire_with s cfg hold seed now token st).1.db
  unfolding acquire_with
  acquire_with-Good now hold seed none st x = x
  acquire_with-Good now hold seed (some token) st x = on_acquired-Good now token _ (
      called _ st (Good now) x (
        acquire_script-Good s w cfg.key_prefix now (ttl_seconds hold) 20 seed
          (set_key cfg.key_prefix) token st.db x))

  on_limit-Good :
      (now : ℕ) (r : Option ℕ × Session s.Db)
      (next : Session s.Db → (ProxyError ⊎ Lease) × Session s.Db)
      → Good now r.1.db
      → ((st : Session s.Db) → Good now st.db → Good now (next st).1.db)
      → Good now (on_limit s cfg r next).1.db
  unfolding on_limit
  on_limit-Good now (none, st) next x step = x
  on_limit-Good now (some zero, st) next x step = x
  on_limit-Good now (some (suc n), st) next x step = step st x

  acquire-Good :
      (now hold seed : ℕ) (token : Option Text) (st : Session s.Db)
      → Good now st.db
      → Good now (acquire s cfg hold seed now token st).1.db
  unfolding acquire
  acquire-Good now hold seed token st x = elim (Bool-cases (disabled cfg.rate_limit)) [
    | inl t ↦ rw (t, acquire) (acquire_with-Good now hold seed token st x)
    | inr f ↦
        rw (f, acquire)
          (on_limit-Good now _ (acquire_with s cfg hold seed now token)
            (called _ st (Good now) x
              (limit-Good now cfg.rate_limit.burst (window_millis cfg.rate_limit.window) st.db x))
            (acquire_with-Good now hold seed token))
  ]

  on_released-Good :
      (now : ℕ) (r : Option ℕ × Session s.Db)
      → Good now r.1.db
      → Good now (on_released s cfg r).1.db
  unfolding on_released
  on_released-Good now (none, st) x = x
  on_released-Good now (some n, st) x = x

  release-Good :
      (now : ℕ) (l : Lease) (st : Session s.Db)
      → Good now st.db
      → Good now (release s cfg now l st).2.db
  unfolding release
  release-Good now l st x = elim (Bool-cases l.released) [
    | inl t ↦ rw (t, release) x
    | inr f ↦
        rw (f, release)
          (on_released-Good now _
            (called _ st (Good now) x (release_script-Good s w cfg.key_prefix now l.token st.db x)))
  ]

  boost-Same :
      (a b : s.Db) (set url : Text) (p : s.Weight) (o : Option s.Weight)
      → w.Same a b
      → w.Same a (boost s set url p o b)
  unfolding boost
  boost-Same a b set url p none same = same
  boost-Same a b set url p (some q) same = w.zincrby_same a b set url p same

  mark_success-Good :
      (now : ℕ) (l : Lease) (st : Session s.Db)
      → Good now st.db
      → Good now (mark_success s cfg l st).db
  unfolding mark_success record_success_script
  mark_success-Good now l st x = called _ st (Good now) x (
      alike-Good s w cfg.key_prefix now st.db _
        (boost-Same st.db _ _ l.url _ _
          (w.hset_same st.db _ _ _ _ (w.hincrby_same st.db st.db _ _ 1 (w.same_refl st.db))))
        x)

  failure-Good :
      (now : ℕ) (stats url : Text) (penalty : s.Weight) (max_fails : ℕ) (cause : Text) (secs : ℕ)
      (db : s.Db)
      → Good now db
      → Good now
          (record_failure_script s
            (set_key cfg.key_prefix)
            stats
            (cooldown_key cfg.key_prefix)
            url
            penalty
            max_fails
            cause
            secs
            now
            db).1
  unfolding record_failure_script
  failure-Good now stats url penalty max_fails cause secs db x =
      let db₁ = (s.hincrby stats (codes "fail") 1 db).1 in
      let db₂ = (s.hincrby stats (codes "consecutive_fail") 1 db₁).1 in
      let db₃ = s.hset stats (codes "last_error") cause db₂ in
      let same : w.Same db db₃ =
        w.hset_same db db₂ stats _ cause
          (w.hincrby_same db db₁ stats _ 1 (w.hincrby_same db db stats _ 1 (w.same_refl db))) in
      let set = set_key cfg.key_prefix in
      elim (Bool-cases
        (ltb 0 max_fails && leb max_fails (s.hincrby stats (codes "consecutive_fail") 1 db₁).0)) [
          | inr f ↦
              rw (f, record_failure_script)
                (alike-Good s w cfg.key_prefix now db _ (w.zincrby_same db db₃ set url _ same) x)
          | inl t ↦
              rw (t, record_failure_script)
                (same-IsExclusive s w cfg.key_prefix now (s.zrem set url db₃) _
                  (λ u.
                    w.zadd_stored (cooldown_key cfg.key_prefix) url _ (now + secs)
                      (s.zrem set url db₃))
                  (λ m e lt p.
                    w.zadd_key (cooldown_key cfg.key_prefix) _ url m (now + secs)
                      (s.zrem set url db₃) (cooldown_key-leased_key cfg.key_prefix)
                    ∙ p)
                  (alike-Good s w cfg.key_prefix now db _ (w.zrem_same db db₃ set url same) x))
        ]

  mark_failure-Good :
      (now : ℕ) (cooldown : Option ℕ) (l : Lease) (cause : Option Text) (st : Session s.Db)
      → Good now st.db
      → Good now (mark_failure s cfg now cooldown l cause st).db
  unfolding mark_failure
  mark_failure-Good now cooldown l cause st x = called _ st (Good now) x (
      failure-Good now (stats_key cfg.key_prefix l.url) l.url cfg.ranking.failure_penalty
        cfg.max_failures (or_unspecified s cfg cause) (or_default_cooldown s cfg cooldown) st.db x)

  abbrev GoodState : State s cfg → Type 0
  GoodState a = Good a.0 a.1.db

  Step-Good : (a b : State s cfg) → Step s cfg a b → GoodState a → GoodState b
  Step-Good a b (waits now later st le) x =
      later-IsExclusive s w cfg.key_prefix now later st.db le x
  Step-Good a b (acquires now hold seed token st) x = acquire-Good now hold seed token st x
  Step-Good a b (releases now l st) x = release-Good now l st x
  Step-Good a b (succeeds now l st) x = mark_success-Good now l st x
  Step-Good a b (fails now cooldown l cause st) x = mark_failure-Good now cooldown l cause st x

  -- Let the leases of a pool be exclusive: the proxy of each lease that lasts is noted as leased for as
  -- long, and two leases that last have different proxies. They are so after any sequence of acquired,
  -- released and marked leases, expired ones included, while time passes and however far the round
  -- trips to Redis get.
  pub Reach-IsExclusive :
      (a b : State s cfg)
      → Reach s cfg a b
      → IsExclusive s w cfg.key_prefix a.0 a.1.db
      → IsExclusive s w cfg.key_prefix b.0 b.1.db
  Reach-IsExclusive a b (here c) x = x
  Reach-IsExclusive a c (after d b e step rest) x =
      Reach-IsExclusive b c rest (Step-Good a b step x)
