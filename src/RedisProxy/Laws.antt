-- ===== src/RedisProxy/Laws.antt =====
-- What the scripts of the pool rely on in Redis, and the proxies that acquire.lua finds.
use dota2_analysis.Base.{
  ℕ, zero, suc, ◌+◌, ◌≡◌, ◌≢◌, subst, false, inl, inr, List, [], ◌∷◌, ◌++◌, Option, none, some, All,
  arith, ltb, if◌then◌else◌, get_elem?, Bool-cases,
}
use dota2_analysis.Base.Text.{Text, codes}
use dota2_analysis.RedisProxy.{
  Server, leased_key, lease_key, limiter_key, cooldown_key, is_leased, unleased, on_window, scan,
}

-- What a string with the time of its expiry reads as.
unfoldable pub live : ℕ → Option (Text × ℕ) → Option Text
live now none = none
live now (some (v, e)) = if ltb now e then some v else none

-- What is left of a score when those below a bound are removed.
unfoldable pub keep_from : ℕ → Option ℕ → Option ℕ
keep_from below none = none
keep_from below (some e) = if ltb e below then none else some e

-- What a Redis does with strings and with sorted sets of times. A command changes the members that it
-- names under its key; those on weights and hashes leave strings and times alone.
pub record Laws (s : Server) : Type 1 where
  pub stored : Text → s.Db → Option (Text × ℕ)
  pub get-stored : (now : ℕ) (k : Text) (db : s.Db) → s.get now k db ≡ live now (stored k db)
  pub set_self :
      (now ttl : ℕ) (k v : Text) (db : s.Db)
      → stored k (s.set_ex now k v ttl db) ≡ some (v, now + ttl)
  pub set_ne :
      (now ttl : ℕ) (k v j : Text) (db : s.Db)
      → k ≢ j
      → stored j (s.set_ex now k v ttl db) ≡ stored j db
  pub set_time :
      (now ttl : ℕ) (k v j m : Text) (db : s.Db)
      → s.zscore_time j m (s.set_ex now k v ttl db) ≡ s.zscore_time j m db
  pub zadd_self :
      (k m : Text) (e : ℕ) (db : s.Db) → s.zscore_time k m (s.zadd_time k e m db) ≡ some e
  pub zadd_member :
      (k m n : Text) (e : ℕ) (db : s.Db)
      → m ≢ n
      → s.zscore_time k n (s.zadd_time k e m db) ≡ s.zscore_time k n db
  pub zadd_key :
      (k j m n : Text) (e : ℕ) (db : s.Db)
      → k ≢ j
      → s.zscore_time j n (s.zadd_time k e m db) ≡ s.zscore_time j n db
  pub zadd_stored :
      (k m j : Text) (e : ℕ) (db : s.Db) → stored j (s.zadd_time k e m db) ≡ stored j db
  pub zrem_member :
      (k m n : Text) (db : s.Db)
      → m ≢ n
      → s.zscore_time k n (s.zrem_time k m db) ≡ s.zscore_time k n db
  pub zrem_stored : (k m j : Text) (db : s.Db) → stored j (s.zrem_time k m db) ≡ stored j db
  pub below_time :
      (k m : Text) (b : ℕ) (db : s.Db)
      → s.zscore_time k m (s.zremrangebyscore k b db) ≡ keep_from b (s.zscore_time k m db)
  pub below_stored :
      (k j : Text) (b : ℕ) (db : s.Db) → stored j (s.zremrangebyscore k b db) ≡ stored j db
  pub del_self : (k : Text) (db : s.Db) → stored k (s.del (k ∷ []) db) ≡ none
  pub del_ne : (k j : Text) (db : s.Db) → k ≢ j → stored j (s.del (k ∷ []) db) ≡ stored j db
  pub del_time :
      (k j m : Text) (db : s.Db)
      → k ≢ j
      → s.zscore_time j m (s.del (k ∷ []) db) ≡ s.zscore_time j m db
  pub incr_ne : (k j : Text) (db : s.Db) → k ≢ j → stored j (s.incr k db).1 ≡ stored j db
  pub incr_time :
      (k j m : Text) (db : s.Db) → s.zscore_time j m (s.incr k db).1 ≡ s.zscore_time j m db
  pub pexpire_ne :
      (k j : Text) (n : ℕ) (db : s.Db) → k ≢ j → stored j (s.pexpire k n db) ≡ stored j db
  pub pexpire_time :
      (k j m : Text) (n : ℕ) (db : s.Db)
      → s.zscore_time j m (s.pexpire k n db) ≡ s.zscore_time j m db
  pub Same : s.Db → s.Db → Type 0
  pub same_stored : (a b : s.Db) → Same a b → (j : Text) → stored j b ≡ stored j a
  pub same_time : (a b : s.Db) → Same a b → (j m : Text) → s.zscore_time j m b ≡ s.zscore_time j m a
  pub same_refl : (a : s.Db) → Same a a
  pub hset_same : (a b : s.Db) (k f v : Text) → Same a b → Same a (s.hset k f v b)
  pub hincrby_same : (a b : s.Db) (k f : Text) (n : ℕ) → Same a b → Same a (s.hincrby k f n b).1
  pub zincrby_same :
      (a b : s.Db) (k m : Text) (x : s.Weight) → Same a b → Same a (s.zincrby k x m b)
  pub zrem_same : (a b : s.Db) (k m : Text) → Same a b → Same a (s.zrem k m b)

append-cancel : (p a b : Text) → p ++ a ≡ p ++ b → a ≡ b
append-cancel [] a b e = e
append-cancel (c ∷ p) a b e = append-cancel p a b (ground (arith, e))

pub lease_key-cancel : (p t u : Text) → lease_key p t ≡ lease_key p u → t ≡ u
unfolding lease_key
lease_key-cancel p t u e =
    append-cancel (codes ":lease:") t u
      (append-cancel p (codes ":lease:" ++ t) (codes ":lease:" ++ u) e)

pub lease_key-leased_key : (p t : Text) → lease_key p t ≢ leased_key p
unfolding lease_key leased_key
lease_key-leased_key p t e =
    let f = append-cancel p (codes ":lease:" ++ t) (codes ":leased") e in absurd (ground arith)

pub limiter_key-lease_key : (p t : Text) → limiter_key p ≢ lease_key p t
unfolding limiter_key lease_key
limiter_key-lease_key p t e =
    let f = append-cancel p (codes ":limiter") (codes ":lease:" ++ t) e in absurd (ground arith)

pub cooldown_key-leased_key : (p : Text) → cooldown_key p ≢ leased_key p
unfolding cooldown_key leased_key
cooldown_key-leased_key p e =
    let f = append-cancel p (codes ":cooldown") (codes ":leased") e in absurd (ground arith)

pub All-get_elem? :
    (P : Text → Type 0) (xs : List Text) (i : ℕ) (u : Text)
    → All P xs
    → get_elem? xs i ≡ some u
    → P u
All-get_elem? P [] i u a e = absurd (ground (arith, e))
All-get_elem? P (x ∷ xs) zero u a e = subst P (ground (arith, e)) a.0
All-get_elem? P (x ∷ xs) (suc i) u a e = All-get_elem? P xs i u a.1 e

module _ (s : Server) where
  abbrev pub Free : (leased : Text) → s.Db → Text → Type 0
  Free leased db u = s.zscore_time leased u db ≡ none

  is_leased-Free :
      (leased u : Text) (db : s.Db) → is_leased s leased u db ≡ false → Free leased db u
  unfolding is_leased
  is_leased-Free leased u db f = ground arith

  unleased-Free :
      (leased : Text) (room : ℕ) (cs : List Text) (db : s.Db)
      → All (Free leased db) (unleased s leased room cs db)
  unfolding unleased
  unleased-Free leased zero cs db = tt
  unleased-Free leased (suc room) [] db = tt
  unleased-Free leased (suc room) (c ∷ cs) db = elim (Bool-cases (is_leased s leased c db)) [
    | inl t ↦ rw (t, unleased) (unleased-Free leased (suc room) cs db)
    | inr f ↦ rw (f, unleased) (is_leased-Free leased c db f, unleased-Free leased room cs db)
  ]

  on_window-All :
      (P : Text → Type 0) (cs available next : List Text)
      → All P available
      → All P next
      → All P (on_window s cs available next)
  unfolding on_window
  on_window-All P [] available next a n = tt
  on_window-All P (c ∷ cs) [] next a n = n
  on_window-All P (c ∷ cs) (x ∷ available) next a n = a

  pub scan-Free :
      (set leased : Text) (top windows start : ℕ) (db : s.Db)
      → All (Free leased db) (scan s set leased top windows start db)
  unfolding scan
  scan-Free set leased top zero start db = tt
  scan-Free set leased top (suc windows) start db =
      on_window-All (Free leased db) _ _ _ (unleased-Free leased top _ db)
        (scan-Free set leased top windows _ db)
