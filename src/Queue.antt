-- ===== src/Queue.antt =====
-- go-ingestion/internal/queue/inmem/queue.go over the types of go-ingestion/internal/queue/queue.go:
-- the in-memory queue with its tasks in flight, retries and dead letters. Every method holds the
-- lock for its whole body, except `Pop`, which polls: one turn of its loop is one step.
pub mod Tracking
pub mod Unique
pub mod Conserved
pub mod Retries
pub mod Poison
pub mod Delivery
use dota2_analysis.Base.{
  ℕ, suc, ◌+◌, Bool, true, false, ◌&&◌, List, [], ◌∷◌, ◌++◌, Option, none, some, ltb, if◌then◌else◌,
  length, take, drop, Map, insert, delete, ℕ_discrete,
}
use dota2_analysis.Base.Text.{Text, Text-discrete, codes, decimal}

pub record Message : Type 0 where
  pub id : Text
  pub payload : List ℕ
  pub headers : Map Text Text

pub record Task : Type 0 where
  pub message : Message
  pub open message use *
  pub retry_count : ℕ

-- `MaxRetries` below 1 turns dead-lettering off, so a negative value is 0 here.
pub record RetryPolicy : Type 0 where
  pub max_retries : ℕ

pub record Queue : Type 0 where
  pub pending : List Task
  pub in_flight : Map Text Task
  pub policy : RetryPolicy
  pub open policy use *
  pub dlq : List Task
  pub seq : ℕ

unfoldable pub should_dlq : RetryPolicy → ℕ → Bool
should_dlq p retry_count = ltb 0 p.max_retries && ltb p.max_retries retry_count

unfoldable pub new : RetryPolicy → Queue
new policy = record { pending = []; in_flight = []; policy = policy; dlq = []; seq = 0 }

-- `fmt.Sprintf("inmem-%d", q.seq)`
unfoldable pub task_id : ℕ → Text
task_id seq = codes "inmem-" ++ decimal seq

unfoldable pub next_id : Queue → Text × Queue
unfolding task_id
next_id q = (task_id (q.seq + 1), record q { seq = q.seq + 1 })

unfoldable pub publish : Queue → Message → Queue
unfolding next_id
publish q msg =
    let (id, q') = next_id q in
    let task : Task = record {
      message = record { id = id; payload = msg.payload; headers = msg.headers };
      retry_count = 0;
    } in
    record q' { pending = q.pending ++ task ∷ [] }

unfoldable pub push : Queue → List ℕ → Queue
unfolding publish
push q payload = publish q (record { id = []; payload = payload; headers = [] })

-- `for _, t := range out { q.inFlight[t.ID] = t }`
unfoldable pub track : List Task → Map Text Task → Map Text Task
track [] in_flight = in_flight
track (t ∷ tasks) in_flight = track tasks (insert Text-discrete t.id t in_flight)

-- One turn of the loop of `Pop` that finds tasks; `none` when nothing is pending.
unfoldable pub take_batch : ℕ → Queue → Option (List Task × Queue)
unfolding track
take_batch batch q = elim q.pending [
  | [] ↦ none
  | t ∷ rest ↦
      let n = if ltb (length (t ∷ rest)) batch then length (t ∷ rest) else batch in
      let out = take n (t ∷ rest) in
      some (out, record q { pending = drop n (t ∷ rest); in_flight = track out q.in_flight })
]

unfoldable pub ack : Queue → Text → Queue
ack q id = record q { in_flight = delete Text-discrete id q.in_flight }

unfoldable pub retry : Queue → Task → Queue
unfolding should_dlq next_id
retry q t =
    let q₁ = record q { in_flight = delete Text-discrete t.id q.in_flight } in
    let t₁ = record t { retry_count = t.retry_count + 1 } in
    if should_dlq q.policy t₁.retry_count
    then record q₁ { dlq = q.dlq ++ t₁ ∷ [] }
    else let (id, q₂) = next_id q₁ in
      let t₂ = record t₁ { message = record (t.message) { id = id } } in
      record q₂ { pending = q.pending ++ t₂ ∷ [] }

-- What a handler returns: nil, an error that is `ErrDrop`, or any other error.
pub data Outcome : Type 0 where
  handled dropped failed : Outcome

-- The body of the loop of `Subscribe` over the tasks of a batch.
unfoldable pub settle : Outcome → Queue → Task → Queue
unfolding ack retry
settle handled q t = ack q t.id
settle dropped q t = ack q t.id
settle failed q t = retry q t

unfoldable pub settle_all : (Message → Outcome) → List Task → Queue → Queue
unfolding settle
settle_all handler [] q = q
settle_all handler (t ∷ tasks) q = settle_all handler tasks (settle (handler t.message) q t)

-- One round of `Subscribe`: `Pop` of one task, then the handler. With nothing pending the poll
-- ends in `ErrEmpty` and the round changes nothing.
unfoldable pub subscribe_round : (Message → Outcome) → Queue → Queue
unfolding take_batch settle_all
subscribe_round handler q = elim (take_batch 1 q) [
  | none ↦ q
  | some (tasks, q') ↦ settle_all handler tasks q'
]

-- Nothing is ever stale in memory.
unfoldable pub recover_stale : Queue → List Task × Queue
recover_stale q = ([], q)

-- `DLQ`
unfoldable pub dead_letters : Queue → List Task
dead_letters q = q.dlq

unfoldable pub stream_len : Queue → ℕ
stream_len q = length q.pending

unfoldable pub in_flight_len : Queue → ℕ
in_flight_len q = length q.in_flight
