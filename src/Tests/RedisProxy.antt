-- ===== src/Tests/RedisProxy.antt =====
-- The pool of proxies on a small Redis of functions.
use dota2_analysis.Base.{
  ℕ, ◌+◌, ◌≡◌, ◌≢◌, refl, ap, ◌∙◌, false, inr, List, [], ◌∷◌, Option, none, some, arith,
  if◌then◌else◌, length, take, drop, ℕ_discrete,
}
use dota2_analysis.Base.Text.{Text, Text-discrete, codes}
use dota2_analysis.Link.{Session}
use dota2_analysis.RedisQueue.Client.{executed, cut}
use dota2_analysis.RedisProxy.{Server, leased_key}
use dota2_analysis.RedisProxy.Exclusive.{IsExclusive}
use dota2_analysis.RedisProxy.Laws.{Laws, live, keep_from}
use dota2_analysis.RedisProxy.Pool.{Config, Lease, acquire, release, mark_failure}
use dota2_analysis.RedisProxy.Steps.{Step, Reach, Reach-IsExclusive}
use dota2_analysis.Tests.Letters.{is_text_refl}
use dota2_analysis.Tests.Redis.{remove_by, is_text, is_text-ne}

record Db : Type 0 where
  strings : Text → Option (Text × ℕ)
  times : (key member : Text) → Option ℕ
  counts : Text → ℕ
  urls : List Text

unfoldable put : {A : Type 0} → Text → A → (Text → A) → Text → A
unfolding is_text
put k v f j = if is_text k j then v else f j

put_self : {A : Type 0} (k : Text) (v : A) (f : Text → A) → put k v f k ≡ v
unfolding put
put_self k v f = rw (is_text_refl k) refl

put_ne : {A : Type 0} (k j : Text) (v : A) (f : Text → A) → k ≢ j → put k v f j ≡ f j
unfolding put
put_ne k j v f n = rw (is_text-ne k j n) refl

abbrev redis : Server
redis = record {
  Db = Db;
  Weight = ℕ;
  literal = λ n. n;
  is_zero = λ n. false;
  negate = λ n. n;
  zadd = λ k ms db. db;
  zadd_nx = λ k ms db. db;
  zincrby = λ k x m db. db;
  zrem = λ k m db. record db { urls = remove_by (is_text m) db.urls };
  zscore = λ k m db. some 1;
  zcard = λ k db. length db.urls;
  zrange = λ k db. db.urls;
  zrevrange = λ k start count db. take count (drop start db.urls);
  zadd_time = λ k e m db. record db { times = put k (put m (some e) (db.times k)) db.times };
  zrem_time = λ k m db. record db { times = put k (put m none (db.times k)) db.times };
  zscore_time = λ k m db. db.times k m;
  zrange_times = λ k db. [];
  zremrangebyscore =
      λ k b db. record db { times = put k (λ m. keep_from b (db.times k m)) db.times };
  zrangebyscore = λ k max count db. [];
  get = λ now k db. live now (db.strings k);
  set_ex = λ now k v ttl db. record db { strings = put k (some (v, now + ttl)) db.strings };
  incr = λ k db. (db.counts k + 1, record db { counts = put k (db.counts k + 1) db.counts });
  pexpire = λ k n db. db;
  hincrby = λ k f n db. (1, db);
  hset = λ k f v db. db;
  exists = λ k db. 0;
  del = λ ks db. elim ks [ [] ↦ db | k ∷ rest ↦ record db { strings = put k none db.strings } ];
  pick = λ seed n. 0;
}

put_member :
    (k j m n : Text) (e : Option ℕ) (f : Text → Text → Option ℕ)
    → m ≢ n
    → put k (put m e (f k)) f k n ≡ f k n
put_member k j m n e f apart = ap (λ g. g n) (put_self k _ f) ∙ put_ne m n e (f k) apart

abbrev laws : Laws redis
laws = record {
  stored = λ k db. db.strings k;
  get-stored = λ now k db. refl;
  set_self = λ now ttl k v db. put_self k _ db.strings;
  set_ne = λ now ttl k v j db n. put_ne k j _ db.strings n;
  set_time = λ now ttl k v j m db. refl;
  zadd_self = λ k m e db. ap (λ g. g m) (put_self k _ db.times) ∙ put_self m _ (db.times k);
  zadd_member = λ k m n e db apart. put_member k k m n (some e) db.times apart;
  zadd_key = λ k j m n e db apart. ap (λ g. g n) (put_ne k j _ db.times apart);
  zadd_stored = λ k m j e db. refl;
  zrem_member = λ k m n db apart. put_member k k m n none db.times apart;
  zrem_stored = λ k m j db. refl;
  below_time = λ k m b db. ap (λ g. g m) (put_self k _ db.times);
  below_stored = λ k j b db. refl;
  del_self = λ k db. put_self k none db.strings;
  del_ne = λ k j db n. put_ne k j none db.strings n;
  del_time = λ k j m db n. refl;
  incr_ne = λ k j db n. refl;
  incr_time = λ k j m db. refl;
  pexpire_ne = λ k j n db apart. refl;
  pexpire_time = λ k j m n db. refl;
  Same = λ a b. (b.strings ≡ a.strings) × (b.times ≡ a.times);
  same_stored = λ a b same j. ap (λ f. f j) same.0;
  same_time = λ a b same j m. ap (λ f. f j m) same.1;
  same_refl = λ a. (refl, refl);
  hset_same = λ a b k f v same. same;
  hincrby_same = λ a b k f n same. same;
  zincrby_same = λ a b k m x same. same;
  zrem_same = λ a b k m same. same;
}

abbrev cfg : Config redis
cfg = record {
  key_prefix = codes "p";
  rate_limit = record { rate_per_sec = 5; burst = 5; window = 0 };
  ranking = record { failure_penalty = 5; success_boost = 1; initial_weight = 100 };
  max_failures = 1;
}

abbrev start : Session Db
start = record {
  db = record {
    strings = λ k. none;
    times = λ k m. none;
    counts = λ k. 0;
    urls = codes "http://a" ∷ codes "http://b" ∷ [];
  };
  fates = executed ∷ executed ∷ executed ∷ cut 1 ∷ [];
}

abbrev first_lease : Lease
first_lease = record { url = codes "http://a"; token = codes "t1"; released = false }

-- The first client takes a proxy, the second one takes another but does not get the answer, and the
-- first one marks a failure and returns its lease.
abbrev taken : Session Db
taken = (acquire redis cfg 0 7 100 (some (codes "t1")) start).1

abbrev both : Session Db
both = (acquire redis cfg 0 7 101 (some (codes "t2")) taken).1

abbrev failed_once : Session Db
failed_once = mark_failure redis cfg 102 none first_lease none both

abbrev returned : Session Db
returned = (release redis cfg 102 first_lease failed_once).2

takes_first : (acquire redis cfg 0 7 100 (some (codes "t1")) start).0 ≡ inr first_lease
unfolding acquire put Text-discrete ℕ_discrete keep_from
takes_first = refl

takes_second : both.db.times (leased_key (codes "p")) (codes "http://b") ≡ some 131
unfolding acquire put Text-discrete ℕ_discrete keep_from
takes_second = refl

returns_first : returned.db.times (leased_key (codes "p")) (codes "http://a") ≡ none
unfolding release mark_failure acquire put Text-discrete ℕ_discrete keep_from live
returns_first = refl

path : Reach redis cfg (100, start) (102, returned)
path = Reach.after _ _ _ (Step.acquires 100 0 7 (some (codes "t1")) start) (
    Reach.after _ _ _ (Step.waits 100 101 taken (omega arith)) (
      Reach.after _ _ _ (Step.acquires 101 0 7 (some (codes "t2")) taken) (
        Reach.after _ _ _ (Step.waits 101 102 both (omega arith)) (
          Reach.after _ _ _ (Step.fails 102 none first_lease none both)
            (Reach.after _ _ _ (Step.releases 102 first_lease failed_once) (Reach.here _))))))

start-IsExclusive : IsExclusive redis laws (codes "p") 100 start.db
start-IsExclusive = record {
  listed = λ t u e h. absurd (ground (arith, h));
  single = λ t t' u e e' h h'. absurd (ground (arith, h));
}

Reach-IsExclusive_example : IsExclusive redis laws (codes "p") 102 returned.db
Reach-IsExclusive_example =
    Reach-IsExclusive redis laws cfg (100, start) (102, returned) path start-IsExclusive
