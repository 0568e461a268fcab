-- ===== src/Queue/Delivery.antt =====
-- What a subscriber's handler settles, and what stays in the queue.
use mathlib.Core.List.{
  Mem, Perm, Nodup, Nodup-cons, append_assoc, mem-append_left, mem-cons_self, mem-cons_of_mem,
  mem-map_of_mem,
}
use mathlib.Core.List.Nodup
use mathlib.Core.List.Perm
use dota2_analysis.Base.{
  ℕ, ◌≡◌, refl, sym, subst, List, [], ◌∷◌, ◌++◌, some, delete, keys, mem-delete_ne, arith,
}
use dota2_analysis.Base.Text.{Text-discrete}
use dota2_analysis.Queue.{
  Message, Task, Queue, take_batch, ack, retry, Outcome, handled, dropped, failed, settle,
  settle_all,
}
use dota2_analysis.Queue.Conserved.{payloads, ack-payloads, retry-payloads, Batch-payloads}
use dota2_analysis.Queue.Tracking.{task_ids, track-perm, Batch, take_batch-Batch}
use dota2_analysis.Queue.Unique.{IsSound, Batch-new_keys, Step-IsSound, pops, acks, retries}

-- The payloads that a handler settles: every outcome but `failed` ends a task.
abbrev pub settled_by : Outcome → Task → List (List ℕ)
settled_by failed t = []
settled_by handled t = t.payload ∷ []
settled_by dropped t = t.payload ∷ []

abbrev pub settled : (Message → Outcome) → List Task → List (List ℕ)
settled handler [] = []
settled handler (t ∷ tasks) = settled_by (handler t.message) t ++ settled handler tasks

settle-payloads :
    (o : Outcome) (q : Queue) (t : Task)
    → IsSound q
    → Mem (t.id, t) q.in_flight
    → Perm (payloads q) (settled_by o t ++ payloads (settle o q t))
unfolding settle
settle-payloads failed q t v m = retry-payloads q t v m
settle-payloads handled q t v m = ack-payloads q t v m
settle-payloads dropped q t v m = ack-payloads q t v m

settle-IsSound : (o : Outcome) (q : Queue) (t : Task) → IsSound q → IsSound (settle o q t)
unfolding settle
settle-IsSound failed q t v = Step-IsSound {q = q} v (retries t)
settle-IsSound handled q t v = Step-IsSound {q = q} v (acks t.id)
settle-IsSound dropped q t v = Step-IsSound {q = q} v (acks t.id)

in_flight-settle :
    (o : Outcome) (q : Queue) (t : Task)
    → (settle o q t).in_flight ≡ delete Text-discrete t.id q.in_flight
unfolding settle ack retry
in_flight-settle failed q t = ground arith
in_flight-settle handled q t = refl
in_flight-settle dropped q t = refl

settle_all-payloads :
    (handler : Message → Outcome) (tasks : List Task) (q : Queue)
    → IsSound q
    → Nodup (task_ids tasks)
    → ((t : Task) → Mem t tasks → Mem (t.id, t) q.in_flight)
    → Perm (payloads q) (settled handler tasks ++ payloads (settle_all handler tasks q))
unfolding settle_all
settle_all-payloads handler [] q v n m = Perm.refl (payloads q)
settle_all-payloads handler (t ∷ tasks) q v n m =
    subst (Perm (payloads q)) (sym (append_assoc (settled_by o t) (settled handler tasks) _)) (
      Perm.trans (settle-payloads o q t v (m t mem-cons_self)) (
        Perm.append_left (settled_by o t) (
          settle_all-payloads handler tasks (settle o q t) (settle-IsSound o q t v)
            (Nodup-cons.0 n).1 still)))
  where
    o : Outcome
    o = handler t.message

    still : (u : Task) → Mem u tasks → Mem (u.id, u) (settle o q t).in_flight
    still u i = subst (Mem (u.id, u)) (sym (in_flight-settle o q t)) (
        mem-delete_ne Text-discrete u.id t.id u q.in_flight
          (λ e.
            (Nodup-cons.0 n).0
              (subst (λ x. Mem x (task_ids tasks)) (sym e) (mem-map_of_mem (λ (t : Task). t.id) i)))
          (m u (mem-cons_of_mem t i)))

-- In a queue whose ids are sound, a subscriber that pops a batch and runs its handler on every task
-- keeps all payloads: those that it settles, and no others, leave the queue; the rest are pending, in flight or dead.
pub subscriber-payloads :
    (handler : Message → Outcome) (batch : ℕ) (q : Queue) {out : List Task} {q' : Queue}
    → IsSound q
    → take_batch batch q ≡ some (out, q')
    → Perm (payloads q) (settled handler out ++ payloads (settle_all handler out q'))
subscriber-payloads handler batch q {out} {q'} v e = Perm.trans (Batch-payloads q out q' b v) (
    settle_all-payloads handler out q' (Step-IsSound {q = q} v (pops batch e))
      (Nodup.of_append_left (keys q.in_flight) fresh) flies)
  where
    b : Batch q out q'
    b = take_batch-Batch batch q e

    fresh : Nodup (task_ids out ++ keys q.in_flight)
    fresh = Batch-new_keys q out q' b v

    flies : (t : Task) → Mem t out → Mem (t.id, t) q'.in_flight
    flies t i = subst (Mem (t.id, t)) (sym b.flying) (
        (Perm.mem_iff (track-perm out q.in_flight fresh)).1
          (mem-append_left q.in_flight (mem-map_of_mem (λ (t : Task). (t.id, t)) i)))
