-- ===== src/RedisQueue/Client.antt =====
-- The operations of go-ingestion/internal/queue/redisstreams/queue.go as a client of a Redis server,
-- with its Lua scripts, over connections that may fail.
pub mod Subscriber
use dota2_analysis.Base.{
  ℕ, zero, suc, ◌+◌, ◌*◌, ◌/◌, Bool, true, false, not, ◌&&◌, ◌||◌, ◌⊎◌, inl, inr, List, [], ◌∷◌,
  Option, none, some, ltb, ◌==◌, if◌then◌else◌, take, map, Map, ℤ, pos,
}
use dota2_analysis.Base.Text.{Text, codes}
use dota2_analysis.Queue.{Message, Outcome, handled, dropped, failed}
use dota2_analysis.RedisQueue.{
  Config, Task, Value, XMessage, publish_values, task_values, dlq_values, DecodeError,
  decode_message, increment, exceeds, Member, envelope, garbled, nanos_per_second, backoff,
}

-- How far the commands of one round trip get: all, or only the first so many, and then the client
-- sees an error. A script is one command.
pub data Fate : Type 0 where
  executed : Fate
  cut : ℕ → Fate

pub data ReadReply : Type 0 where
  nil_reply read_error : ReadReply
  messages : List XMessage → ReadReply

-- The id from which XREADGROUP reads: ">" for new messages, "0" for those that are pending.
pub data Start : Type 0 where
  new_messages pending_messages : Start

-- The commands of Redis that the queue sends, and the clock. `none` is an error, and a limit of
-- XADD is approximate; 0 for a duration to block means not at all.
pub record Server : Type 1 where
  pub Db : Type 0
  pub now : Db → ℕ
  pub xadd : (stream : Text) (max_len : Option ℕ) → Map Text Value → Db → Text × Db
  pub xack : (stream group id : Text) → Db → Db
  pub xdel : (stream id : Text) → Db → Db
  pub zadd : (key : Text) (score : ℕ) → Member → Db → Db
  pub zrem : (key : Text) → Member → Db → Db
  pub xreadgroup :
      (stream group consumer : Text) (start : Start) (count block : ℕ) → Db → ReadReply × Db
  pub zrange_by_score : (key : Text) (max count : ℕ) → Db → Option (List Member)
  pub xautoclaim :
      (stream group consumer : Text) (min_idle : ℕ) (start : Text) (count : ℕ)
      → Db
      → Option (List XMessage × Text) × Db
  pub xpending : (stream group : Text) → Db → Option ℕ
  pub xlen : (stream : Text) → Db → Option ℕ

pub data QueueError : Type 0 where
  no_consumer empty read_failed xadd_failed xack_failed claim_failed : QueueError
  schedule_failed requeue_failed xadd_dlq_failed dlq_failed ack_dropped_failed : QueueError

unfoldable pub is_empty : Text → Bool
is_empty [] = true
is_empty (c ∷ cs) = false

-- Of the queue's fields, those that change. Where no fate is left every round trip succeeds.
module _ (s : Server) where
  pub record State : Type 0 where
    pub db : s.Db
    pub fates : List Fate
    pub recover_cursor : Text

module _ (s : Server) where
  unfoldable pub apply_all : List (s.Db → s.Db) → s.Db → s.Db
  apply_all [] db = db
  apply_all (c ∷ cs) db = apply_all cs (c db)

  unfoldable pub send_on : List Fate → List (s.Db → s.Db) → State s → Bool × State s
  unfolding apply_all
  send_on [] cmds st = (true, record st { db = apply_all cmds st.db })
  send_on (executed ∷ fates) cmds st =
      (true, record st { db = apply_all cmds st.db; fates = fates })
  send_on (cut n ∷ fates) cmds st =
      (false, record st { db = apply_all (take n cmds) st.db; fates = fates })

  -- One round trip: whether the client sees no error. A pipeline without commands makes none.
  unfoldable pub send : List (s.Db → s.Db) → State s → Bool × State s
  unfolding send_on
  send [] st = (true, st)
  send (c ∷ cmds) st = send_on st.fates (c ∷ cmds) st

  unfoldable pub answer : QueueError → Bool × State s → Option QueueError × State s
  answer e (true, st) = (none, st)
  answer e (false, st) = (some e, st)

  -- `luaZAddAckAtomic`
  unfoldable pub zadd_ack :
      (key stream group : Text) (score : ℕ) (member : Member) (id : Text) (delete : Bool)
      → s.Db
      → s.Db
  unfolding is_empty
  zadd_ack key stream group score member id delete db =
      let db₁ = s.zadd key score member db in
      let db₂ = s.xack stream group id db₁ in
      if is_empty id then db₁ else if delete then s.xdel stream id db₂ else db₂

  -- `luaRequeueAtomic`
  unfoldable pub requeue_script :
      (stream group : Text) (max_len : ℕ) (id : Text) (values : Map Text Value) → s.Db → s.Db
  requeue_script stream group max_len id values db =
      s.xdel stream id (s.xack stream group id (s.xadd stream (some max_len) values db).1)

  -- `luaRouteDLQAtomic`
  unfoldable pub route_dlq_script :
      (dlq stream group : Text) (max_len : ℕ) (id : Text) (values : Map Text Value) → s.Db → s.Db
  route_dlq_script dlq stream group max_len id values db =
      s.xdel stream id (s.xack stream group id (s.xadd dlq (some max_len) values db).1)

module _ (s : Server) (cfg : Config) where
  unfoldable pub publish : Message → State s → Option QueueError × State s
  unfolding send answer
  publish msg st =
      let limit = if ltb 0 cfg.max_len then some cfg.max_len else none in
      answer s xadd_failed
        (send s ((λ db. (s.xadd cfg.stream limit (publish_values msg) db).1) ∷ []) st)

  -- The error of XDEL is dropped.
  unfoldable pub after_ack : Text → Bool × State s → Option QueueError × State s
  unfolding send
  after_ack id (false, st) = (some xack_failed, st)
  after_ack id (true, st) =
      (none, (if cfg.delete_on_ack then (send s (s.xdel cfg.stream id ∷ []) st).1 else st))

  unfoldable pub ack : Text → State s → Option QueueError × State s
  unfolding send after_ack
  ack id st = after_ack id (send s (s.xack cfg.stream cfg.group id ∷ []) st)

  unfoldable pub dropped_answer : Option QueueError × State s → Option QueueError × State s
  dropped_answer (none, st) = (none, st)
  dropped_answer (some _, st) = (some ack_dropped_failed, st)

  unfoldable pub route_dlq : Task → Text → State s → Option QueueError × State s
  unfolding is_empty ack dropped_answer send answer route_dlq_script
  route_dlq t reason st =
      if is_empty cfg.dlq_stream
      then (if is_empty t.id then (none, st) else dropped_answer (ack t.id st))
      else if is_empty t.id
      then answer s xadd_dlq_failed
          (send s ((λ db. (s.xadd cfg.dlq_stream none (dlq_values t reason) db).1) ∷ []) st)
      else answer s dlq_failed (
          send s
            (route_dlq_script s cfg.dlq_stream cfg.stream cfg.group cfg.max_len t.id
                (dlq_values t reason)
              ∷ [])
            st)

  unfoldable pub requeue : Task → State s → Option QueueError × State s
  unfolding send answer requeue_script
  requeue t st =
      answer s requeue_failed
        (send s (requeue_script s cfg.stream cfg.group cfg.max_len t.id (task_values t) ∷ []) st)

-- A delay of 0 becomes a second; the score is in seconds.
unfoldable pub retry_score : Config → (ℕ → ℕ) → Task → ℕ → ℕ
unfolding backoff
retry_score cfg jitter t now =
    let d = backoff cfg.max_backoff jitter t.retry_count in
    (now + (if ltb 0 d then d else nanos_per_second)) / nanos_per_second

module _ (s : Server) (cfg : Config) (jitter : ℕ → ℕ) where
  unfoldable pub schedule_async_retry : Task → State s → Option QueueError × State s
  unfolding route_dlq exceeds send answer zadd_ack retry_score
  schedule_async_retry t st =
      if exceeds t.retry_count cfg.async_cfg.max_retries
      then route_dlq s cfg t (codes "max retries exceeded") st
      else answer s schedule_failed (
          send s
            (zadd_ack s cfg.async_cfg.zset_key cfg.stream cfg.group
                (retry_score cfg jitter t (s.now st.db)) (envelope t) t.id cfg.delete_on_ack
              ∷ [])
            st)

  unfoldable pub retry : Task → Text → State s → Option QueueError × State s
  unfolding increment exceeds route_dlq is_empty schedule_async_retry requeue
  retry t reason st =
      let t' = record t { retry_count = increment t.retry_count } in
      if exceeds t'.retry_count cfg.policy.max_retries
      then route_dlq s cfg t' reason st
      else if is_empty cfg.async_cfg.zset_key
      then requeue s cfg t' st
      else schedule_async_retry t' st

  -- What `processOne` does with the result of the handler; a panic is a failure.
  unfoldable pub settle : Outcome → Task → Text → State s → State s
  unfolding ack retry
  settle handled t reason st = (ack s cfg t.id st).1
  settle dropped t reason st = (ack s cfg t.id st).1
  settle failed t reason st = (retry t reason st).1

  unfoldable pub process_one : (Message → Outcome × Text) → Task → State s → State s
  unfolding settle
  process_one handler t st = let (outcome, reason) = handler t.message in settle outcome t reason st
