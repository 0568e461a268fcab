-- ===== src/RedisQueue/Loss.antt =====
-- Where a task of the Redis queue is after a failed handler, whatever the connection does.
use mathlib.Core.Logic.{⊎_elim}
use dota2_analysis.Base.{
  ℕ, zero, suc, ◌<◌, ◌≡◌, ◌≢◌, refl, sym, subst, ◌∙◌, Bool, true, false, ◌⊎◌, inl, inr, List, [],
  ◌∷◌, some, Bool-cases, Map,
}
use dota2_analysis.Base.Text.{Text, codes}
use dota2_analysis.Queue.{Message, Outcome, failed}
use dota2_analysis.RedisQueue.{
  Config, Task, Value, task_values, dlq_values, increment, exceeds, Member, envelope,
}
use dota2_analysis.RedisQueue.Client.{
  Fate, executed, cut, Server, QueueError, schedule_failed, requeue_failed, dlq_failed, is_empty,
  State, apply_all, send_on, send, answer, zadd_ack, requeue_script, route_dlq_script, route_dlq,
  requeue, schedule_async_retry, retry_score, retry, settle, process_one,
}

-- What holds of a database of Redis: an entry of a stream, a message that is delivered to a group
-- and not acknowledged, a member of a sorted set. XADD makes an entry under a new id, unless it is
-- told to keep none; XACK and XDEL leave other entries and members alone.
pub record Contents (s : Server) : Type 1 where
  pub Entry : s.Db → (stream id : Text) → Map Text Value → Type 0
  pub Pending : s.Db → (stream group id : Text) → Type 0
  pub Has : s.Db → (key : Text) → Member → Type 0
  pub xadd_entry :
      (stream : Text) (n : ℕ) (v : Map Text Value) (db : s.Db)
      → 0 < n
      → Entry (s.xadd stream (some n) v db).1 stream (s.xadd stream (some n) v db).0 v
  pub xadd_new :
      (stream group id : Text) (n : ℕ) (v : Map Text Value) (db : s.Db)
      → Pending db stream group id
      → (s.xadd stream (some n) v db).0 ≢ id
  pub xack_entry :
      (stream group id st i : Text) (v : Map Text Value) (db : s.Db)
      → Entry db st i v
      → Entry (s.xack stream group id db) st i v
  pub xdel_entry :
      (stream id st i : Text) (v : Map Text Value) (db : s.Db)
      → (st ≢ stream) ⊎ (i ≢ id)
      → Entry db st i v
      → Entry (s.xdel stream id db) st i v
  pub zadd_has :
      (key : Text) (score : ℕ) (m : Member) (db : s.Db) → Has (s.zadd key score m db) key m
  pub xack_has :
      (stream group id key : Text) (m : Member) (db : s.Db)
      → Has db key m
      → Has (s.xack stream group id db) key m
  pub xdel_has :
      (stream id key : Text) (m : Member) (db : s.Db)
      → Has db key m
      → Has (s.xdel stream id db) key m

module _ (s : Server) where
  -- A round trip of one command has its effect, or none.
  send_on_one :
      (fates : List Fate) (c : s.Db → s.Db) (st : State s)
      → ((send_on s fates (c ∷ []) st).1.db ≡ c st.db)
        ⊎ ((send_on s fates (c ∷ []) st).1.db ≡ st.db)
  unfolding send_on apply_all
  send_on_one [] c st = inl refl
  send_on_one (executed ∷ fates) c st = inl refl
  send_on_one (cut zero ∷ fates) c st = inr refl
  send_on_one (cut (suc zero) ∷ fates) c st = inl refl
  send_on_one (cut (suc (suc n)) ∷ fates) c st = inl refl

  answer-db : (e : QueueError) (x : Bool × State s) → (answer s e x).1.db ≡ x.1.db
  unfolding answer
  answer-db e (true, st) = refl
  answer-db e (false, st) = refl

  pub sent {ℓ} :
      (e : QueueError) (c : s.Db → s.Db) (st : State s) (P Q : s.Db → Type ℓ)
      → P st.db
      → Q (c st.db)
      → P (answer s e (send s (c ∷ []) st)).1.db ⊎ Q (answer s e (send s (c ∷ []) st)).1.db
  unfolding send
  sent e c st P Q p q =
      let kept = answer-db e (send_on s st.fates (c ∷ []) st) in
      elim (send_on_one st.fates c st) [
        | inl done ↦ inr (subst Q (sym (kept ∙ done)) q)
        | inr lost ↦ inl (subst P (sym (kept ∙ lost)) p)
      ]

module _ (s : Server) (cfg : Config) (jitter : ℕ → ℕ) (w : Contents s) where
  open w use {Entry, Pending, Has}

  abbrev InFlight : Task → s.Db → Type 0
  InFlight t db = Pending db cfg.stream cfg.group t.id

  abbrev Requeued : Task → s.Db → Type 0
  Requeued t db = (i : Text) × Entry db cfg.stream i (task_values t)

  abbrev Delayed : Task → s.Db → Type 0
  Delayed t db = Has db cfg.async_cfg.zset_key (envelope t)

  abbrev Dead : Task → s.Db → Type 0
  Dead t db = (reason : Text) × (i : Text) × Entry db cfg.dlq_stream i (dlq_values t reason)

  -- A failed task is still in flight, or with its count increased it is back in the stream, among
  -- the delayed retries or among the dead letters.
  abbrev pub Kept : Task → s.Db → Type 0
  Kept t db =
      let t' = record t { retry_count = increment t.retry_count } in
      InFlight t db ⊎ (Requeued t' db ⊎ (Delayed t' db ⊎ Dead t' db))

  requeue_kept :
      (t : Task) (st : State s)
      → 0 < cfg.max_len
      → InFlight t st.db
      → InFlight t (requeue s cfg t st).1.db ⊎ Requeued t (requeue s cfg t st).1.db
  unfolding requeue requeue_script
  requeue_kept t st room flying =
      let new = w.xadd_new cfg.stream cfg.group t.id cfg.max_len (task_values t) st.db flying in
      sent s requeue_failed (requeue_script s cfg.stream cfg.group cfg.max_len t.id (task_values t))
        st (InFlight t) (Requeued t) flying
        (
          (s.xadd cfg.stream (some cfg.max_len) (task_values t) st.db).0,
          w.xdel_entry cfg.stream t.id cfg.stream _ _ _ (inr new) (
              w.xack_entry cfg.stream cfg.group t.id cfg.stream _ _ _
                (w.xadd_entry cfg.stream cfg.max_len (task_values t) st.db room)),
        )

  route_dlq_kept :
      (t : Task) (reason : Text) (st : State s)
      → 0 < cfg.max_len
      → is_empty cfg.dlq_stream ≡ false
      → is_empty t.id ≡ false
      → cfg.dlq_stream ≢ cfg.stream
      → InFlight t st.db
      → InFlight t (route_dlq s cfg t reason st).1.db ⊎ Dead t (route_dlq s cfg t reason st).1.db
  unfolding route_dlq route_dlq_script
  route_dlq_kept t reason st room has_dlq has_id apart flying =
      rw (has_dlq, route_dlq)
        (rw (has_id, route_dlq)
          (sent s dlq_failed
            (route_dlq_script s cfg.dlq_stream cfg.stream cfg.group cfg.max_len t.id
              (dlq_values t reason))
            st (InFlight t) (Dead t) flying
            (
              reason,
              (s.xadd cfg.dlq_stream (some cfg.max_len) (dlq_values t reason) st.db).0,
              w.xdel_entry cfg.stream t.id cfg.dlq_stream _ _ _ (inl apart) (
                  w.xack_entry cfg.stream cfg.group t.id cfg.dlq_stream _ _ _
                    (w.xadd_entry cfg.dlq_stream cfg.max_len (dlq_values t reason) st.db room)),
            )))

  schedule_kept :
      (t : Task) (st : State s)
      → 0 < cfg.max_len
      → is_empty cfg.dlq_stream ≡ false
      → is_empty t.id ≡ false
      → cfg.dlq_stream ≢ cfg.stream
      → InFlight t st.db
      → InFlight t (schedule_async_retry s cfg jitter t st).1.db
        ⊎ (Delayed t (schedule_async_retry s cfg jitter t st).1.db
            ⊎ Dead t (schedule_async_retry s cfg jitter t st).1.db)
  unfolding schedule_async_retry zadd_ack
  schedule_kept t st room has_dlq has_id apart flying =
      elim (Bool-cases (exceeds t.retry_count cfg.async_cfg.max_retries)) [
        | inl over ↦
            rw (over, schedule_async_retry)
              (⊎_elim inl (λ d. inr (inr d))
                (route_dlq_kept t (codes "max retries exceeded") st room has_dlq has_id apart
                  flying))
        | inr under ↦
            let score = retry_score cfg jitter t (s.now st.db) in
            let key = cfg.async_cfg.zset_key in
            rw (under, schedule_async_retry)
              (⊎_elim inl (λ d. inr (inl d))
                (sent s schedule_failed
                  (zadd_ack s key cfg.stream cfg.group score (envelope t) t.id cfg.delete_on_ack) st
                  (InFlight t) (Delayed t) flying (added key score (envelope t) t.id st.db)))
      ]
    where
      added :
          (key : Text) (score : ℕ) (m : Member) (id : Text) (db : s.Db)
          → Has (zadd_ack s key cfg.stream cfg.group score m id cfg.delete_on_ack db) key m
      added key score m id db =
          let here = w.zadd_has key score m db in
          let acked = w.xack_has cfg.stream cfg.group id key m _ here in
          elim (Bool-cases (is_empty id)) [
            | inl e ↦ rw (e, zadd_ack) here
            | inr e ↦ elim (Bool-cases cfg.delete_on_ack) [
              | inl d ↦ rw (e, zadd_ack) (rw (d, zadd_ack) (w.xdel_has cfg.stream id key m _ acked))
              | inr d ↦ rw (e, zadd_ack) (rw (d, zadd_ack) acked)
            ]
          ]

  -- Let the queue have a stream of dead letters beside its own and a limit above 0, and let the
  -- task, whose id is not empty, be in flight. After the handler has failed on it, however far the
  -- commands get on their connections, the task is still in flight, or it is back in the stream, among
  -- the delayed retries or among the dead letters, with its count increased by one, its payload and
  -- its headers.
  pub process_one-Kept :
      (handler : Message → Outcome × Text) (t : Task) (st : State s)
      → 0 < cfg.max_len
      → is_empty cfg.dlq_stream ≡ false
      → is_empty t.id ≡ false
      → cfg.dlq_stream ≢ cfg.stream
      → w.Pending st.db cfg.stream cfg.group t.id
      → (handler t.message).0 ≡ failed
      → Kept t (process_one s cfg jitter handler t st).db
  unfolding process_one settle retry
  process_one-Kept handler t st room has_dlq has_id apart flying fails =
      rw (fails, settle) (kept (handler t.message).1)
    where
      kept : (reason : Text) → Kept t (retry s cfg jitter t reason st).1.db
      kept reason =
          let t' = record t { retry_count = increment t.retry_count } in
          elim (Bool-cases (exceeds t'.retry_count cfg.policy.max_retries)) [
            | inl over ↦
                rw (over, retry)
                  (⊎_elim inl (λ d. inr (inr (inr d)))
                    (route_dlq_kept t' reason st room has_dlq has_id apart flying))
            | inr under ↦ elim (Bool-cases (is_empty cfg.async_cfg.zset_key)) [
              | inl e ↦
                  rw (under, retry)
                    (rw (e, retry) (⊎_elim inl (λ d. inr (inl d)) (requeue_kept t' st room flying)))
              | inr e ↦
                  rw (under, retry)
                    (rw (e, retry)
                      (⊎_elim inl (λ d. inr (inr d))
                        (schedule_kept t' st room has_dlq has_id apart flying)))
            ]
          ]
