-- ===== src/Queue/Unique.antt =====
-- The ids of the tasks that are pending or in flight.
use mathlib.Core.Logic.{∥∥₁_elim, ∥∥₁_map}
use mathlib.Core.Logic.Or
use mathlib.Core.List.{
  Mem, Perm, Nodup, Nodup-cons, Nodup-nil, perm_middle, map-append, append_assoc, mem-cons, Sublist,
  not-mem-nil, perm_append_comm, sublist-append_left,
}
use mathlib.Core.List.Nodup
use mathlib.Core.List.Perm
use mathlib.Core.List.Sublist
use dota2_analysis.Base.{
  ℕ, ◌+◌, ◌≤◌, ◌≡◌, refl, sym, ap, subst, ◌∙◌, Bool, true, false, List, [], ◌∷◌, ◌++◌, some, drop,
  Map, delete, keys, keys-delete-sublist, arith, if◌then◌else◌,
}
use dota2_analysis.Base.Text.{Text, Text-discrete, decimal-injective}
use dota2_analysis.Queue.{
  Message, Task, RetryPolicy, Queue, track, take_batch, publish, ack, retry, new, task_id,
  should_dlq,
}
use dota2_analysis.Queue.Tracking.{task_ids, tracked, track-perm, Batch, take_batch-Batch}

pub task_id-injective : (m n : ℕ) → task_id m ≡ task_id n → m ≡ n
unfolding task_id
task_id-injective m n e = decimal-injective m n (ap (drop 6) e)

abbrev pub ids : Queue → List Text
ids q = task_ids q.pending ++ keys q.in_flight

-- An id that `nextID` has given out by the time the counter is `n`.
abbrev pub IsIssued : ℕ → Text → Type 0
IsIssued n x = ∥ ((k : ℕ) × (k ≤ n) × (x ≡ task_id k)) ∥₁

pub record IsUnique (n : ℕ) (xs : List Text) : Type 0 where
  pub unique : Nodup xs
  pub issued : (x : Text) → Mem x xs → IsIssued n x

fewer : (n : ℕ) (xs ys : List Text) → Sublist xs ys → IsUnique n ys → IsUnique n xs
fewer n xs ys s v = record {
  unique = Nodup.sublist s v.unique;
  issued = λ x m. v.issued x (Sublist.subset s x m);
}

reorder : (n : ℕ) (xs ys : List Text) → Perm xs ys → IsUnique n xs → IsUnique n ys
reorder n xs ys p v = record {
  unique = Perm.nodup p v.unique;
  issued = λ x m. v.issued x ((Perm.mem_iff p).1 m);
}

later : (n : ℕ) (x : Text) → IsIssued n x → IsIssued (n + 1) x
later n x i = ∥∥₁_map i (λ (k, h, e). (k, omega arith, e))

not_yet : (n : ℕ) (xs : List Text) → IsUnique n xs → ¬ Mem (task_id (n + 1)) xs
not_yet n xs v m =
    ∥∥₁_elim (v.issued _ m) (hlevel) (λ (k, h, e). omega (arith, task_id-injective (n + 1) k e))

one_more : (n : ℕ) (xs : List Text) → IsUnique n xs → IsUnique (n + 1) (task_id (n + 1) ∷ xs)
one_more n xs v = record {
  unique = Nodup-cons.1 (not_yet n xs v, v.unique);
  issued = λ x m.
      Or.elim (hlevel) (mem-cons.0 m) (λ e. ∣ (n + 1, omega arith, e) ∣₁)
        (λ i. later n x (v.issued x i));
}

abbrev pub IsSound : Queue → Type 0
IsSound q = IsUnique q.seq (ids q)

-- A task with the next id at the end of the pending ones.
enqueue-IsSound :
    (n : ℕ) (pending : List Task) (t : Task) (m : Map Text Task)
    → t.id ≡ task_id (n + 1)
    → IsUnique n (task_ids pending ++ keys m)
    → IsUnique (n + 1) (task_ids (pending ++ t ∷ []) ++ keys m)
enqueue-IsSound n pending t m e v = subst (IsUnique (n + 1)) (sym front) (
    reorder (n + 1) _ _ (Perm.symm (perm_middle (task_ids pending) (keys m)))
      (subst (λ x. IsUnique (n + 1) (x ∷ (task_ids pending ++ keys m))) (sym e) (one_more n _ v)))
  where
    front : task_ids (pending ++ t ∷ []) ++ keys m ≡ task_ids pending ++ t.id ∷ keys m
    front =
        ap (λ l. l ++ keys m) (map-append _ pending (t ∷ []))
        ∙ append_assoc (task_ids pending) (t.id ∷ []) (keys m)

publish-IsSound : (q : Queue) (msg : Message) → IsSound q → IsSound (publish q msg)
unfolding publish
publish-IsSound q msg v = enqueue-IsSound q.seq q.pending _ q.in_flight refl v

ack-IsSound : (q : Queue) (id : Text) → IsSound q → IsSound (ack q id)
unfolding ack
ack-IsSound q id v =
    fewer q.seq _ _
      (Sublist.append (Sublist.refl (task_ids q.pending))
        (keys-delete-sublist Text-discrete id q.in_flight))
      v

retry-IsSound : (q : Queue) (t : Task) → IsSound q → IsSound (retry q t)
unfolding retry
retry-IsSound q t v = by_limit (should_dlq q.policy (t.retry_count + 1))
  where
    t₁ : Task
    t₁ = record t { retry_count = t.retry_count + 1 }

    t₂ : Task
    t₂ = record t₁ { message = record (t.message) { id = task_id (q.seq + 1) } }

    acked : IsUnique q.seq (task_ids q.pending ++ keys (delete Text-discrete t.id q.in_flight))
    acked =
        fewer q.seq _ _
          (Sublist.append (Sublist.refl (task_ids q.pending))
            (keys-delete-sublist Text-discrete t.id q.in_flight))
          v

    q₁ : Queue
    q₁ = record q { in_flight = delete Text-discrete t.id q.in_flight }

    by_limit :
        (b : Bool)
        → IsSound (
            if b
            then record q₁ { dlq = q.dlq ++ t₁ ∷ [] }
            else record q₁ { seq = q.seq + 1; pending = q.pending ++ t₂ ∷ [] })
    by_limit true = acked
    by_limit false = enqueue-IsSound q.seq q.pending t₂ _ refl acked

keys-tracked-append :
    (out : List Task) (m : Map Text Task) → keys (tracked out ++ m) ≡ task_ids out ++ keys m
keys-tracked-append [] m = refl
keys-tracked-append (t ∷ out) m = ap (◌∷◌ t.id) (keys-tracked-append out m)

-- The ids of popped tasks are new to the tasks in flight.
pub Batch-new_keys :
    (q : Queue) (out : List Task) (q' : Queue)
    → Batch q out q'
    → IsSound q
    → Nodup (task_ids out ++ keys q.in_flight)
Batch-new_keys q out q' b v =
    Nodup.sublist
      (Sublist.append (sublist-append_left (task_ids out) (task_ids q'.pending))
        (Sublist.refl (keys q.in_flight)))
      (subst (λ l. Nodup (l ++ keys q.in_flight)) (map-append _ out q'.pending)
        (subst (λ p. Nodup (task_ids p ++ keys q.in_flight)) b.oldest v.unique))

-- Popping reorders the ids, and no more.
Batch-ids-perm :
    (q : Queue) (out : List Task) (q' : Queue) → Batch q out q' → IsSound q → Perm (ids q) (ids q')
Batch-ids-perm q out q' b v =
    subst (λ p. Perm (task_ids p ++ K) (ids q')) (sym b.oldest)
      (subst (λ m. Perm (task_ids (out ++ q'.pending) ++ K) (P ++ keys m)) (sym b.flying)
        (subst (λ l. Perm (l ++ K) (P ++ keys (track out q.in_flight)))
          (sym (map-append _ out q'.pending)) moved))
  where
    O : List Text
    O = task_ids out

    P : List Text
    P = task_ids q'.pending

    K : List Text
    K = keys q.in_flight

    flown : Perm (O ++ K) (keys (track out q.in_flight))
    flown =
        subst (λ l. Perm l (keys (track out q.in_flight))) (keys-tracked-append out q.in_flight)
          (Perm.map _ (Perm.symm (track-perm out q.in_flight (Batch-new_keys q out q' b v))))

    moved : Perm ((O ++ P) ++ K) (P ++ keys (track out q.in_flight))
    moved = Perm.trans (Perm.append_right K (perm_append_comm O P)) (
        subst (λ l. Perm l (P ++ keys (track out q.in_flight))) (sym (append_assoc P O K))
          (Perm.append_left P flown))

Batch-IsSound : (q : Queue) (out : List Task) (q' : Queue) → Batch q out q' → IsSound q → IsSound q'
Batch-IsSound q out q' b v =
    subst (λ n. IsUnique n (ids q')) (sym b.same_seq)
      (reorder q.seq _ _ (Batch-ids-perm q out q' b v) v)

-- What clients and subscribers do to a queue. A task that is retried or acknowledged need not be
-- in flight, as the methods do not check it.
pub data Step (q : Queue) : Queue → Type 0 where
  publishes : (msg : Message) → Step q (publish q msg)
  pops :
      (batch : ℕ) {out : List Task} {q' : Queue} → take_batch batch q ≡ some (out, q') → Step q q'
  acks : (id : Text) → Step q (ack q id)
  retries : (t : Task) → Step q (retry q t)

pub data Reach (q : Queue) : Queue → Type 0 where
  here : Reach q q
  next : {q' q'' : Queue} → Reach q q' → Step q' q'' → Reach q q''

pub Step-IsSound : {q q' : Queue} → IsSound q → Step q q' → IsSound q'
Step-IsSound {q} v (publishes msg) = publish-IsSound q msg v
Step-IsSound {q} v (pops batch {out} {q'} e) = Batch-IsSound q out q' (take_batch-Batch batch q e) v
Step-IsSound {q} v (acks id) = ack-IsSound q id v
Step-IsSound {q} v (retries t) = retry-IsSound q t v

new-IsSound : (policy : RetryPolicy) → IsSound (new policy)
unfolding new
new-IsSound policy = record { unique = Nodup-nil; issued = λ x m. absurd (not-mem-nil m) }

-- In every state that a new queue can reach, the ids of the tasks that are pending or in flight are
-- all different, and each of them is one that `nextID` has given out.
pub Reach-IsSound : (policy : RetryPolicy) {q : Queue} → Reach (new policy) q → IsSound q
Reach-IsSound policy here = new-IsSound policy
Reach-IsSound policy (next r s) = Step-IsSound (Reach-IsSound policy r) s
