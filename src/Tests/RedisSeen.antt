-- ===== src/Tests/RedisSeen.antt =====
-- The dedup in Redis on a server that is a list of members and does not know SMISMEMBER.
use dota2_analysis.Base.{
  ◌≡◌, refl, true, false, List, [], ◌∷◌, none, arith, if◌then◌else◌, ite, lookup,
}
use dota2_analysis.Base.Text.{Text, Text-discrete, codes}
use dota2_analysis.Dedup as Dedup
use dota2_analysis.Dedup.{Seen}
use dota2_analysis.Link.{Session}
use dota2_analysis.RedisQueue.Client.{executed, cut}
use dota2_analysis.RedisSeen.{Server, refused, Config, mark_seen, is_seen, check_batch}
use dota2_analysis.RedisSeen.Refines.{Sets, Refines, Marks, Answers, redis_seen-Refines}
use dota2_analysis.Tests.Letters.{is_set}
use dota2_analysis.Tests.Redis.{is_text}

abbrev redis : Server
redis = record {
  Db = List Text;
  bf_reserve = λ k db. (refused, db);
  bf_add = λ k m db. (0, db);
  bf_exists = λ k m db. 0;
  bf_mexists = λ k ms db. [];
  sadd = λ k m db. ((if is_set m db then 0 else 1), m ∷ db);
  sismember = λ k m db. is_set m db;
  smismember_of = λ k ms db. none;
  setnx = λ k ttl db. (false, db);
  exists = λ k db. 0;
}

is_set_cons :
    (m n : Text) (db : List Text) → is_set n (m ∷ db) ≡ ite (Text-discrete m n) true (is_set n db)
unfolding is_set is_text
is_set_cons m n db = ground arith

abbrev sets : Sets redis
sets = record {
  sadd_answer = λ k m db. refl;
  sadd_member = λ k m n db. is_set_cons m n db;
  smismember_each = λ k ms bs db e. absurd (ground (arith, e));
}

abbrev cfg : Config
cfg = record { key_prefix = codes "p"; ttl = 0; use_bloom = false }

abbrev empty : Session (List Text)
empty = record { db = []; fates = executed ∷ cut 1 ∷ [] }

empty-Refines : Refines redis sets cfg refl refl [] Dedup.new
unfolding is_set Dedup.is_seen Dedup.new lookup
empty-Refines k = refl

redis_seen-Refines_example :
    Marks redis sets cfg refl refl (codes "7") Dedup.new (mark_seen redis cfg (codes "7") empty)
    × Answers redis sets cfg refl refl
        (is_seen redis cfg (codes "7") empty)
        (Dedup.is_seen (codes "7") Dedup.new)
    × Answers redis sets cfg refl refl
        (check_batch redis cfg (codes "7" ∷ codes "8" ∷ []) empty)
        (Dedup.check_batch (codes "7" ∷ codes "8" ∷ []) Dedup.new)
redis_seen-Refines_example =
    redis_seen-Refines redis sets cfg refl refl (codes "7") (codes "7" ∷ codes "8" ∷ []) empty
      Dedup.new empty-Refines
