-- ===== src/RedisQueue/Promotion.antt =====
-- The promotion of delayed retries of the Redis queue, whatever the connection does.
use mathlib.Core.List.{Memᴰ}
use dota2_analysis.Base.{
  ℕ, zero, suc, ◌/◌, ◌≡◌, subst, false, ◌⊎◌, inl, inr, List, [], ◌∷◌, Option, none, some, take,
  Bool-cases, Map,
}
use dota2_analysis.Base.Text.{Text}
use dota2_analysis.RedisQueue.{
  Config, Task, Value, task_values, Member, envelope, garbled, nanos_per_second,
}
use dota2_analysis.RedisQueue.Client.{
  Fate, executed, cut, Server, is_empty, State, apply_all, send_on, send,
}
use dota2_analysis.RedisQueue.Client.Subscriber.{promotions, on_due, mature_async_retries}
use dota2_analysis.RedisQueue.Loss.{Contents}

-- XADD without a limit makes an entry and keeps what there is, and ZREM removes one member.
pub record Additions (s : Server) (w : Contents s) : Type 0 where
  pub xadd_unlimited :
      (stream : Text) (v : Map Text Value) (db : s.Db)
      → w.Entry (s.xadd stream none v db).1 stream (s.xadd stream none v db).0 v
  pub xadd_keeps :
      (stream st i : Text) (v u : Map Text Value) (db : s.Db)
      → w.Entry db st i u
      → w.Entry (s.xadd stream none v db).1 st i u
  pub xadd_has :
      (stream key : Text) (v : Map Text Value) (m : Member) (db : s.Db)
      → w.Has db key m
      → w.Has (s.xadd stream none v db).1 key m
  pub zrem_entry :
      (key st i : Text) (m : Member) (v : Map Text Value) (db : s.Db)
      → w.Entry db st i v
      → w.Entry (s.zrem key m db) st i v
  pub zrem_has :
      (key : Text) (m n : Member) (db : s.Db)
      → w.Has db key n
      → (m ≡ n) ⊎ w.Has (s.zrem key m db) key n

module _ (s : Server) (cfg : Config) (w : Contents s) (laws : Additions s w) (t : Task) where
  open laws use {xadd_unlimited, xadd_keeps, xadd_has, zrem_entry, zrem_has}

  -- The task is an entry of the stream.
  abbrev pub InStream : s.Db → Type 0
  InStream db = (i : Text) × w.Entry db cfg.stream i (task_values t)

  abbrev pub IsThere : s.Db → Type 0
  IsThere db = w.Has db cfg.async_cfg.zset_key (envelope t) ⊎ InStream db

  added : (u : Task) → s.Db → s.Db
  added u db = (s.xadd cfg.stream none (task_values u) db).1

  removed : (u : Task) → s.Db → s.Db
  removed u db = s.zrem cfg.async_cfg.zset_key (envelope u) db

  InStream-added : (u : Task) (db : s.Db) → InStream db → InStream (added u db)
  unfolding added
  InStream-added u db (i, e) = (i, xadd_keeps cfg.stream cfg.stream i _ _ db e)

  InStream-removed : (u : Task) (db : s.Db) → InStream db → InStream (removed u db)
  unfolding removed
  InStream-removed u db (i, e) = (i, zrem_entry cfg.async_cfg.zset_key cfg.stream i _ _ db e)

  IsThere-added : (u : Task) (db : s.Db) → IsThere db → IsThere (added u db)
  unfolding added
  IsThere-added u db (inl h) = inl (xadd_has cfg.stream cfg.async_cfg.zset_key _ _ db h)
  IsThere-added u db (inr e) = inr (InStream-added u db e)

  -- The member that is removed has been added before.
  IsThere-removed : (u : Task) (db : s.Db) → IsThere db → IsThere (removed u (added u db))
  unfolding added removed
  IsThere-removed u db (inr e) = inr (InStream-removed u (added u db) (InStream-added u db e))
  IsThere-removed u db (inl h) =
      elim (zrem_has cfg.async_cfg.zset_key (envelope u) (envelope t) (added u db)
        (xadd_has cfg.stream cfg.async_cfg.zset_key (task_values u) (envelope t) db h)) [
          | inl same ↦ inr (
              InStream-removed u (added u db) (
                (s.xadd cfg.stream none (task_values u) db).0,
                subst
                    (λ v.
                      w.Entry (s.xadd cfg.stream none (task_values u) db).1 cfg.stream
                        (s.xadd cfg.stream none (task_values u) db).0 (task_values v))
                    (let eq : u ≡ t = cc in eq) (xadd_unlimited cfg.stream (task_values u) db),
              ))
          | inr kept ↦ inl kept
        ]

  -- Every number of commands of the pipeline leaves the task there.
  promotions-IsThere :
      (members : List Member) (n : ℕ) (db : s.Db)
      → IsThere db
      → IsThere (apply_all s (take n (promotions s cfg members)) db)
  unfolding promotions apply_all added removed
  promotions-IsThere [] zero db there = there
  promotions-IsThere [] (suc n) db there = there
  promotions-IsThere (garbled x ∷ members) n db there = promotions-IsThere members n db there
  promotions-IsThere (envelope u ∷ members) zero db there = there
  promotions-IsThere (envelope u ∷ members) (suc zero) db there = IsThere-added u db there
  promotions-IsThere (envelope u ∷ members) (suc (suc n)) db there =
      promotions-IsThere members n (removed u (added u db)) (IsThere-removed u db there)

  whole :
      (members : List Member) (db : s.Db)
      → IsThere db
      → IsThere (apply_all s (promotions s cfg members) db)
  unfolding promotions apply_all added removed
  whole [] db there = there
  whole (garbled x ∷ members) db there = whole members db there
  whole (envelope u ∷ members) db there =
      whole members (removed u (added u db)) (IsThere-removed u db there)

  promotions-InStream :
      (members : List Member) (db : s.Db)
      → InStream db
      → InStream (apply_all s (promotions s cfg members) db)
  unfolding promotions apply_all added removed
  promotions-InStream [] db e = e
  promotions-InStream (garbled x ∷ members) db e = promotions-InStream members db e
  promotions-InStream (envelope u ∷ members) db e =
      promotions-InStream members (removed u (added u db))
        (InStream-removed u (added u db) (InStream-added u db e))

  promotions-mem :
      (members : List Member) (db : s.Db)
      → Memᴰ (envelope t) members
      → InStream (apply_all s (promotions s cfg members) db)
  unfolding promotions apply_all added removed
  promotions-mem [] db m = elim m [ ]
  promotions-mem (garbled x ∷ members) db (Memᴰ.head e) =
      absurd (let bad : ◌≡◌ {A = Member} (envelope t) (garbled x) = e in cc)
  promotions-mem (garbled x ∷ members) db (Memᴰ.tail m) = promotions-mem members db m
  promotions-mem (envelope u ∷ members) db (Memᴰ.tail m) =
      promotions-mem members (removed u (added u db)) m
  promotions-mem (envelope u ∷ members) db (Memᴰ.head e) =
      promotions-InStream members (removed u (added u db)) (
        InStream-removed u (added u db) (
          (s.xadd cfg.stream none (task_values u) db).0,
          subst
              (λ v.
                w.Entry (s.xadd cfg.stream none (task_values u) db).1 cfg.stream
                  (s.xadd cfg.stream none (task_values u) db).0 (task_values v))
              (let eq : u ≡ t = cc in eq) (xadd_unlimited cfg.stream (task_values u) db),
        ))

  send_on-IsThere :
      (fates : List Fate) (members : List Member) (st : State s)
      → IsThere st.db
      → IsThere (send_on s fates (promotions s cfg members) st).1.db
  unfolding send_on
  send_on-IsThere [] members st there = whole members st.db there
  send_on-IsThere (executed ∷ fates) members st there = whole members st.db there
  send_on-IsThere (cut n ∷ fates) members st there = promotions-IsThere members n st.db there

  send-IsThere :
      (cmds : List (s.Db → s.Db)) (st : State s)
      → IsThere st.db
      → IsThere (send_on s st.fates cmds st).1.db
      → IsThere (send s cmds st).1.db
  unfolding send
  send-IsThere [] st there sent = there
  send-IsThere (c ∷ cmds) st there sent = sent

  on_due-IsThere :
      (due : Option (List Member)) (st : State s) → IsThere st.db → IsThere (on_due s cfg due st).db
  unfolding on_due
  on_due-IsThere none st there = there
  on_due-IsThere (some []) st there = there
  on_due-IsThere (some (m ∷ members)) st there =
      send-IsThere (promotions s cfg (m ∷ members)) st there
        (send_on-IsThere st.fates (m ∷ members) st there)

  -- A task that is among the delayed retries or in the stream is so after the promotion of the
  -- delayed retries, at whatever command of the pipeline the connection breaks.
  pub mature_async_retries-IsThere :
      (st : State s) → IsThere st.db → IsThere (mature_async_retries s cfg st).db
  unfolding mature_async_retries
  mature_async_retries-IsThere st there =
      let due =
        s.zrange_by_score cfg.async_cfg.zset_key (s.now st.db / nanos_per_second)
          cfg.async_cfg.batch_size st.db in
      elim (Bool-cases (is_empty cfg.async_cfg.zset_key)) [
        | inl e ↦ rw (e, mature_async_retries) there
        | inr e ↦ rw (e, mature_async_retries) (on_due-IsThere due st there)
      ]

  send-InStream :
      (cmds : List (s.Db → s.Db)) (st : State s)
      → st.fates ≡ []
      → InStream (apply_all s cmds st.db)
      → InStream (send s cmds st).1.db
  unfolding send send_on apply_all
  send-InStream [] st open_link e = e
  send-InStream (c ∷ cmds) st open_link e = rw (open_link, send_on) e

  on_due-InStream :
      (members : List Member) (st : State s)
      → st.fates ≡ []
      → Memᴰ (envelope t) members
      → InStream (on_due s cfg (some members) st).db
  unfolding on_due
  on_due-InStream [] st open_link m = elim m [ ]
  on_due-InStream (x ∷ members) st open_link m =
      send-InStream (promotions s cfg (x ∷ members)) st open_link
        (promotions-mem (x ∷ members) st.db m)

  -- With connections that hold, a delayed retry that Redis reports as due is in the stream after the
  -- promotion.
  pub mature_async_retries-InStream :
      (st : State s) (members : List Member)
      → is_empty cfg.async_cfg.zset_key ≡ false
      → s.zrange_by_score cfg.async_cfg.zset_key
          (s.now st.db / nanos_per_second)
          cfg.async_cfg.batch_size
          st.db
        ≡ some members
      → Memᴰ (envelope t) members
      → st.fates ≡ []
      → InStream (mature_async_retries s cfg st).db
  unfolding mature_async_retries
  mature_async_retries-InStream st members has_key due m open_link =
      rw (has_key, mature_async_retries) (rw due (on_due-InStream members st open_link m))
