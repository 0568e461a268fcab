-- ===== src/RedisQueue/Client/Subscriber.antt =====
-- Reading from the stream of go-ingestion/internal/queue/redisstreams/queue.go, the turns of
-- `Subscribe`, the recovery of stale messages and the promotion of delayed retries.
use dota2_analysis.Base.{
  ℕ, ◌/◌, Bool, true, false, ◌||◌, ◌⊎◌, inl, inr, List, [], ◌∷◌, ◌++◌, Option, none, some, ltb,
  if◌then◌else◌, pos,
}
use dota2_analysis.Base.Text.{Text, codes}
use dota2_analysis.Backpressure.{adjust_for_backpressure}
use dota2_analysis.Queue.{Message, Outcome}
use dota2_analysis.RedisQueue.{
  Config, Task, XMessage, DecodeError, error_text, decode_message, task_values, Member, envelope,
  garbled, nanos_per_second,
}
use dota2_analysis.RedisQueue.Client.{
  Server, Start, new_messages, pending_messages, ReadReply, nil_reply, read_error, messages,
  QueueError, no_consumer, empty, read_failed, claim_failed, State, send, is_empty, route_dlq,
  process_one,
}

-- The error of `XGroupCreateMkStream`.
pub data GroupReply : Type 0 where
  created busy_group create_failed : GroupReply

-- Whether `New` returns a queue, from the reply to the creation of the group, which it asks for only
-- if a consumer and a group are configured.
unfoldable pub can_open : Config → GroupReply → Bool
unfolding is_empty
can_open cfg reply =
    if is_empty cfg.stream
    then false
    else if is_empty cfg.consumer || is_empty cfg.group
    then true
    else elim reply [ create_failed ↦ false | _ ↦ true ]

-- A count or size that is not set.
unfoldable pub or_default : ℕ → ℕ → ℕ
or_default fallback n = if ltb 0 n then n else fallback

unfoldable pub cons_task : DecodeError ⊎ Task → List Task → List Task
cons_task (inl e) tasks = tasks
cons_task (inr t) tasks = t ∷ tasks

module _ (s : Server) (cfg : Config) where
  -- A message that cannot be decoded is dead-lettered under its id; an error is only logged.
  unfoldable pub reject_bad : Text → DecodeError ⊎ Task → State s → State s
  unfolding route_dlq error_text
  reject_bad id (inr t) st = st
  reject_bad id (inl e) st =
      (route_dlq s cfg
        (record { message = record { id = id; payload = []; headers = [] }; retry_count = pos 0 })
        (codes "decode_error: " ++ error_text e) st).1

  -- The loop over the messages that were read.
  unfoldable pub decode_all : List XMessage → State s → List Task × State s
  unfolding reject_bad decode_message cons_task
  decode_all [] st = ([], st)
  decode_all (m ∷ ms) st =
      let decoded = decode_message m in
      let (tasks, st') = decode_all ms (reject_bad m.id decoded st) in
      (cons_task decoded tasks, st')

  unfoldable pub non_empty : List Task × State s → (QueueError ⊎ List Task) × State s
  non_empty ([], st) = (inl empty, st)
  non_empty (t ∷ tasks, st) = (inr (t ∷ tasks), st)

  unfoldable pub on_read : ReadReply → State s → (QueueError ⊎ List Task) × State s
  unfolding decode_all non_empty
  on_read nil_reply st = (inl empty, st)
  on_read read_error st = (inl read_failed, st)
  on_read (messages ms) st = non_empty (decode_all ms st)

  unfoldable pub has_consumer : Bool
  unfolding is_empty
  has_consumer = if is_empty cfg.consumer then false else if is_empty cfg.group then false else true

  unfoldable pub read_group : Start → ℕ → ℕ → State s → (QueueError ⊎ List Task) × State s
  unfolding on_read
  read_group start count block st =
      let (reply, db) = s.xreadgroup cfg.stream cfg.group cfg.consumer start count block st.db in
      on_read reply (record st { db = db })

  unfoldable pub pop : (batch block : ℕ) → State s → (QueueError ⊎ List Task) × State s
  unfolding has_consumer read_group or_default
  pop batch block st =
      if has_consumer
      then read_group new_messages (or_default 1 batch) block st
      else (inl no_consumer, st)

  unfoldable pub pop_pending : (max : ℕ) → State s → (QueueError ⊎ List Task) × State s
  unfolding has_consumer read_group or_default
  pop_pending max st =
      if has_consumer
      then read_group pending_messages (or_default 10 max) 0 st
      else (inl no_consumer, st)

  unfoldable pub on_claim :
      Option (List XMessage × Text) → State s → (QueueError ⊎ List Task) × State s
  unfolding decode_all is_empty
  on_claim none st = (inl claim_failed, st)
  on_claim (some (ms, next_cursor)) st =
      let cursor = if is_empty next_cursor then codes "0-0" else next_cursor in
      let (tasks, st') = decode_all ms (record st { recover_cursor = cursor }) in (inr tasks, st')

  unfoldable pub recover_stale : (idle_for max : ℕ) → State s → (QueueError ⊎ List Task) × State s
  unfolding has_consumer on_claim or_default
  recover_stale idle_for max st =
      let (reply, db) =
        s.xautoclaim cfg.stream cfg.group cfg.consumer idle_for st.recover_cursor
          (or_default 100 max) st.db in
      if has_consumer then on_claim reply (record st { db = db }) else (inl no_consumer, st)

  unfoldable pub in_flight_len : State s → ℕ
  unfolding is_empty
  in_flight_len st =
      if is_empty cfg.stream || is_empty cfg.group
      then 0
      else elim (s.xpending cfg.stream cfg.group st.db) [ none ↦ 0 | some n ↦ n ]

  unfoldable pub stream_len : State s → ℕ
  unfolding is_empty
  stream_len st =
      if is_empty cfg.stream then 0 else elim (s.xlen cfg.stream st.db) [ none ↦ 0 | some n ↦ n ]

  -- The commands of the pipeline for the members that are due.
  unfoldable pub promotions : List Member → List (s.Db → s.Db)
  promotions [] = []
  promotions (garbled text ∷ members) = promotions members
  promotions (envelope t ∷ members) =
      (λ db. (s.xadd cfg.stream none (task_values t) db).1)
      ∷ s.zrem cfg.async_cfg.zset_key (envelope t)
      ∷ promotions members

  unfoldable pub on_due : Option (List Member) → State s → State s
  unfolding send promotions
  on_due none st = st
  on_due (some []) st = st
  on_due (some (m ∷ members)) st = (send s (promotions (m ∷ members)) st).1

  unfoldable pub mature_async_retries : State s → State s
  unfolding is_empty on_due
  mature_async_retries st =
      let due =
        s.zrange_by_score cfg.async_cfg.zset_key (s.now st.db / nanos_per_second)
          cfg.async_cfg.batch_size st.db in
      if is_empty cfg.async_cfg.zset_key then st else on_due due st

module _ (s : Server) (cfg : Config) (jitter : ℕ → ℕ) (handler : Message → Outcome × Text) where
  -- The tasks one after the other, as with one worker.
  unfoldable pub process_tasks : List Task → State s → State s
  unfolding process_one
  process_tasks [] st = st
  process_tasks (t ∷ tasks) st = process_tasks tasks (process_one s cfg jitter handler t st)

  -- An error of a read leaves no tasks, and is only logged.
  unfoldable pub process_read : (QueueError ⊎ List Task) × State s → State s
  unfolding process_tasks
  process_read (inl e, st) = st
  process_read (inr tasks, st) = process_tasks tasks st

  -- One turn of the loop of `Subscribe` with its batch and its duration to block.
  unfoldable pub subscribe_turn :
      (base_batch base_block : ℕ) → (ℕ × ℕ) × State s → (ℕ × ℕ) × State s
  unfolding in_flight_len pop process_read pop_pending
  subscribe_turn base_batch base_block (rate, st) =
      let rate' = adjust_for_backpressure (in_flight_len s cfg st) base_batch base_block rate in
      let st₁ = process_read (pop s cfg rate'.0 rate'.1 st) in
      (rate', process_read (pop_pending s cfg rate'.0 st₁))
