-- ===== src/Tests/Queue.antt =====
-- The in-memory queue: go-ingestion/internal/queue/inmem/queue.go.
use mathlib.Core.List.{Perm}
use dota2_analysis.Base.{ℕ, ◌<◌, ◌≡◌, refl, List, [], ◌∷◌, ◌++◌, some, arith, insert, ℕ_discrete}
use dota2_analysis.Base.Text.{codes, decimal, Text-discrete}
use dota2_analysis.Queue.{
  Message, Task, Queue, new, publish, take_batch, settle_all, Outcome, handled, failed,
}
use dota2_analysis.Queue.Unique.{IsSound, Reach, here, next, publishes, Reach-IsSound}
use dota2_analysis.Queue.Conserved.{payloads, publish-payloads}
use dota2_analysis.Queue.Delivery.{settled, subscriber-payloads}
use dota2_analysis.Queue.Retries.{Bounded, subscriber-Bounded}

abbrev message : List ℕ → Message
message payload = record { id = []; payload = payload; headers = [] }

-- Two messages in a queue that tries a task three times.
abbrev start : Queue
start = new (record { max_retries = 2 })

abbrev loaded : Queue
loaded = publish (publish start (message (10 ∷ []))) (message (20 ∷ []))

abbrev first_task : Task
first_task = record {
  message = record { id = codes "inmem-1"; payload = 10 ∷ []; headers = [] };
  retry_count = 0;
}

abbrev second_task : Task
second_task = record {
  message = record { id = codes "inmem-2"; payload = 20 ∷ []; headers = [] };
  retry_count = 0;
}

abbrev popped : Queue
popped = record {
  pending = [];
  in_flight = (codes "inmem-2", second_task) ∷ (codes "inmem-1", first_task) ∷ [];
  policy = record { max_retries = 2 };
  dlq = [];
  seq = 2;
}

pop_both : take_batch 5 loaded ≡ some (first_task ∷ second_task ∷ [], popped)
unfolding take_batch publish new decimal insert Text-discrete ℕ_discrete
pop_both = refl

Reach-loaded : Reach start loaded
Reach-loaded = next (next here (publishes (message (10 ∷ [])))) (publishes (message (20 ∷ [])))

Reach-IsSound_example : IsSound loaded
Reach-IsSound_example = Reach-IsSound (record { max_retries = 2 }) Reach-loaded

publish-payloads_example :
    Perm (payloads (publish loaded (message (30 ∷ [])))) ((30 ∷ []) ∷ payloads loaded)
publish-payloads_example = publish-payloads loaded (message (30 ∷ []))

-- A handler that fails on one of the two.
abbrev picky : Message → Outcome
picky m = elim m.payload [ [] ↦ handled | x ∷ xs ↦ elim xs [ [] ↦ failed | y ∷ ys ↦ handled ] ]

subscriber-payloads_example : Perm (payloads loaded) (
    settled picky (first_task ∷ second_task ∷ [])
    ++ payloads (settle_all picky (first_task ∷ second_task ∷ []) popped))
subscriber-payloads_example =
    subscriber-payloads picky 5 loaded (Reach-IsSound (record { max_retries = 2 }) Reach-loaded)
      pop_both

loaded-Bounded : Bounded loaded
unfolding publish new
loaded-Bounded = record { pending = (omega arith, (omega arith, tt)); in_flight = tt; dead = tt }

loaded_limit : 0 < loaded.max_retries
unfolding publish new
loaded_limit = omega arith

subscriber-Bounded_example : Bounded (settle_all picky (first_task ∷ second_task ∷ []) popped)
subscriber-Bounded_example = subscriber-Bounded picky 5 loaded loaded_limit pop_both loaded-Bounded

abbrev lone : Queue
lone = record {
  pending = first_task ∷ [];
  in_flight = [];
  policy = record { max_retries = 2 };
  dlq = [];
  seq = 1;
}

abbrev always_fails : Message → Outcome
always_fails m = failed
