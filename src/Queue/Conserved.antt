-- ===== src/Queue/Conserved.antt =====
-- The payloads that the queue holds, against what clients publish and handlers settle.
use mathlib.Core.List.{
  Mem, Perm, Nodup, perm_middle, append_assoc, perm_append_comm, perm_append_singleton,
}
use mathlib.Core.List.Nodup
use mathlib.Core.List.Perm
use dota2_analysis.Base.{
  ℕ, ◌+◌, ◌≡◌, refl, sym, ap, subst, ◌∙◌, Bool, true, false, List, [], ◌∷◌, ◌++◌, map, Map, delete,
  keys, values, delete-perm_of_mem, if◌then◌else◌,
}
use dota2_analysis.Base.Text.{Text, Text-discrete}
use dota2_analysis.Queue.{Message, Task, Queue, track, publish, ack, retry, should_dlq, task_id}
use dota2_analysis.Queue.Tracking.{task_ids, tracked, track-perm, Batch}
use dota2_analysis.Queue.Unique.{IsSound, Batch-new_keys}

-- Everything that the queue still holds: pending, in flight or dead.
abbrev pub held : Queue → List Task
held q = q.pending ++ (values q.in_flight ++ q.dlq)

abbrev pub payloads : Queue → List (List ℕ)
payloads q = map (λ t. t.payload) (held q)

flying_keys : (q : Queue) → IsSound q → Nodup (keys q.in_flight)
flying_keys q v = Nodup.of_append_right (task_ids q.pending) v.unique

abbrev without : Queue → Task → List Task
without q t = q.pending ++ (values (delete Text-discrete t.id q.in_flight) ++ q.dlq)

-- A task in flight is one of the held tasks, and `delete` leaves the others.
held-delete :
    (q : Queue) (t : Task) → IsSound q → Mem (t.id, t) q.in_flight → Perm (held q) (t ∷ without q t)
held-delete q t v m =
    Perm.trans
      (Perm.append_left q.pending (
        Perm.append_right q.dlq
          (Perm.map _ (delete-perm_of_mem Text-discrete t.id t q.in_flight (flying_keys q v) m))))
      (perm_middle q.pending _)

-- Publishing adds the payload of the message.
pub publish-payloads :
    (q : Queue) (msg : Message) → Perm (payloads (publish q msg)) (msg.payload ∷ payloads q)
unfolding publish
publish-payloads q msg =
    Perm.map (λ (t : Task). t.payload)
      (subst (λ l. Perm l (t ∷ held q)) (sym (append_assoc q.pending (t ∷ []) _))
        (perm_middle q.pending _))
  where
    t : Task
    t = record {
      message = record { id = task_id (q.seq + 1); payload = msg.payload; headers = msg.headers };
      retry_count = 0;
    }

-- Acknowledging a task in flight drops its payload, once.
pub ack-payloads :
    (q : Queue) (t : Task)
    → IsSound q
    → Mem (t.id, t) q.in_flight
    → Perm (payloads q) (t.payload ∷ payloads (ack q t.id))
unfolding ack
ack-payloads q t v m = Perm.map _ (held-delete q t v m)

-- Retrying a task in flight keeps its payload, as a pending task or as a dead one.
pub retry-payloads :
    (q : Queue) (t : Task)
    → IsSound q
    → Mem (t.id, t) q.in_flight
    → Perm (payloads q) (payloads (retry q t))
unfolding retry
retry-payloads q t v m = by_limit (should_dlq q.policy (t.retry_count + 1))
  where
    t₁ : Task
    t₁ = record t { retry_count = t.retry_count + 1 }

    t₂ : Task
    t₂ = record t₁ { message = record (t.message) { id = task_id (q.seq + 1) } }

    V : List Task
    V = values (delete Text-discrete t.id q.in_flight)

    dead : Perm (q.pending ++ (V ++ (q.dlq ++ t₁ ∷ []))) (t₁ ∷ without q t)
    dead =
        subst (λ l. Perm l (t₁ ∷ without q t))
          (append_assoc q.pending (V ++ q.dlq) (t₁ ∷ [])
            ∙ ap (◌++◌ q.pending) (append_assoc V q.dlq (t₁ ∷ [])))
          (perm_append_singleton t₁ (without q t))

    back : Perm ((q.pending ++ t₂ ∷ []) ++ (V ++ q.dlq)) (t₂ ∷ without q t)
    back =
        subst (λ l. Perm l (t₂ ∷ without q t)) (sym (append_assoc q.pending (t₂ ∷ []) _))
          (perm_middle q.pending _)

    q₁ : Queue
    q₁ = record q { in_flight = delete Text-discrete t.id q.in_flight }

    by_limit :
        (b : Bool)
        → Perm (payloads q) (
            payloads (
              if b
              then record q₁ { dlq = q.dlq ++ t₁ ∷ [] }
              else record q₁ { seq = q.seq + 1; pending = q.pending ++ t₂ ∷ [] }))
    by_limit true =
        Perm.trans (Perm.map _ (held-delete q t v m))
          (Perm.symm (Perm.map (λ (t : Task). t.payload) dead))
    by_limit false =
        Perm.trans (Perm.map _ (held-delete q t v m))
          (Perm.symm (Perm.map (λ (t : Task). t.payload) back))

values-tracked-append :
    (out : List Task) (m : Map Text Task) → values (tracked out ++ m) ≡ out ++ values m
values-tracked-append [] m = refl
values-tracked-append (t ∷ out) m = ap (◌∷◌ t) (values-tracked-append out m)

-- Popping keeps every payload.
pub Batch-payloads :
    (q : Queue) (out : List Task) (q' : Queue)
    → Batch q out q'
    → IsSound q
    → Perm (payloads q) (payloads q')
Batch-payloads q out q' b v = Perm.map _ (
    subst (λ p. Perm (p ++ rest) (held q')) (sym b.oldest)
      (subst (λ d. Perm ((out ++ q'.pending) ++ rest) (q'.pending ++ (values q'.in_flight ++ d)))
        (sym b.same_dlq)
        (subst (λ m. Perm ((out ++ q'.pending) ++ rest) (q'.pending ++ (values m ++ q.dlq)))
          (sym b.flying) moved)))
  where
    rest : List Task
    rest = values q.in_flight ++ q.dlq

    flown : Perm (out ++ values q.in_flight) (values (track out q.in_flight))
    flown =
        subst (λ l. Perm l (values (track out q.in_flight))) (values-tracked-append out q.in_flight)
          (Perm.map _ (Perm.symm (track-perm out q.in_flight (Batch-new_keys q out q' b v))))

    moved :
        Perm ((out ++ q'.pending) ++ rest) (q'.pending ++ (values (track out q.in_flight) ++ q.dlq))
    moved = Perm.trans (Perm.append_right rest (perm_append_comm out q'.pending)) (
        subst (λ l. Perm l (q'.pending ++ (values (track out q.in_flight) ++ q.dlq)))
          (sym (
            append_assoc q'.pending out rest
            ∙ ap (◌++◌ q'.pending) (sym (append_assoc out (values q.in_flight) q.dlq))))
          (Perm.append_left q'.pending (Perm.append_right q.dlq flown)))
