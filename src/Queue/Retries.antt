-- ===== src/Queue/Retries.antt =====
-- How often a task is tried: `RetryPolicy.ShouldDLQ` and the way to the dead letters.
use dota2_analysis.Base.{
  ℕ, ◌+◌, ◌≤◌, ◌<◌, ◌≡◌, refl, sym, ap, subst, Bool, true, false, List, [], ◌∷◌, ◌++◌, some, if_pos,
  if_neg, All, All-append, Map, insert, delete, arith, if◌then◌else◌,
}
use dota2_analysis.Base.Text.{Text, Text-discrete}
use dota2_analysis.Queue.{
  Message, Task, RetryPolicy, Queue, track, take_batch, publish, ack, retry, should_dlq, settle,
  settle_all, Outcome, handled, dropped, failed, task_id,
}
use dota2_analysis.Queue.Tracking.{Batch, take_batch-Batch}

-- With a limit on retries: a live task was retried at most that often, and a dead one once more.
pub record Bounded (q : Queue) : Type 0 where
  pub pending : All (λ (t : Task). t.retry_count ≤ q.max_retries) q.pending
  pub in_flight : All (λ (e : Text × Task). e.1.retry_count ≤ q.max_retries) q.in_flight
  pub dead : All (λ (t : Task). t.retry_count ≡ q.max_retries + 1) q.dlq

All-delete :
    (P : Text × Task → Type 0) (k : Text) (m : Map Text Task)
    → All P m
    → All P (delete Text-discrete k m)
unfolding delete
All-delete P k [] h = tt
All-delete P k ((j, t) ∷ m) h = elim (Text-discrete j k) [
  | yes e ↦ rw (if_pos _ e) (All-delete P k m h.1)
  | no n ↦ rw (if_neg _ n) (h.0, All-delete P k m h.1)
]

All-track :
    (n : ℕ) (ts : List Task) (m : Map Text Task)
    → All (λ (t : Task). t.retry_count ≤ n) ts
    → All (λ (e : Text × Task). e.1.retry_count ≤ n) m
    → All (λ (e : Text × Task). e.1.retry_count ≤ n) (track ts m)
unfolding track insert
All-track n [] m h k = k
All-track n (t ∷ ts) m h k = All-track n ts _ h.1 (h.0, All-delete _ t.id m k)

All-append_left {ℓ κ} :
    {A : Type ℓ} (P : A → Type κ) (xs ys : List A) → All P (xs ++ ys) → All P xs × All P ys
All-append_left P [] ys h = (tt, h)
All-append_left P (x ∷ xs) ys h = let r = All-append_left P xs ys h.1 in ((h.0, r.0), r.1)

pub publish-Bounded : {q : Queue} (msg : Message) → Bounded q → Bounded (publish q msg)
unfolding publish
publish-Bounded {q} msg b = record {
  pending = All-append _ q.pending _ b.pending (omega arith, tt);
  in_flight = b.in_flight;
  dead = b.dead;
}

pub ack-Bounded : {q : Queue} (id : Text) → Bounded q → Bounded (ack q id)
unfolding ack
ack-Bounded {q} id b = record {
  pending = b.pending;
  in_flight = All-delete _ id q.in_flight b.in_flight;
  dead = b.dead;
}

pub retry-Bounded :
    {q : Queue} (t : Task)
    → 0 < q.max_retries
    → t.retry_count ≤ q.max_retries
    → Bounded q
    → Bounded (retry q t)
unfolding retry
retry-Bounded {q} t limited h b = by_limit (should_dlq q.policy (t.retry_count + 1)) refl
  where
    t₁ : Task
    t₁ = record t { retry_count = t.retry_count + 1 }

    t₂ : Task
    t₂ = record t₁ { message = record (t.message) { id = task_id (q.seq + 1) } }

    q₁ : Queue
    q₁ = record q { in_flight = delete Text-discrete t.id q.in_flight }

    by_limit :
        (c : Bool)
        → should_dlq q.policy (t.retry_count + 1) ≡ c
        → Bounded (
            if c
            then record q₁ { dlq = q.dlq ++ t₁ ∷ [] }
            else record q₁ { seq = q.seq + 1; pending = q.pending ++ t₂ ∷ [] })
    by_limit true e = record {
      pending = b.pending;
      in_flight = All-delete _ t.id q.in_flight b.in_flight;
      dead = All-append _ q.dlq _ b.dead (ground arith, tt);
    }
    by_limit false e = record {
      pending = All-append _ q.pending _ b.pending (ground arith, tt);
      in_flight = All-delete _ t.id q.in_flight b.in_flight;
      dead = b.dead;
    }

pub Batch-Bounded :
    (q : Queue) (out : List Task) (q' : Queue)
    → Batch q out q'
    → Bounded q
    → Bounded q' × All (λ (t : Task). t.retry_count ≤ q'.max_retries) out
Batch-Bounded q out q' b v =
    let n = q.max_retries in
    let split =
      All-append_left (λ (t : Task). t.retry_count ≤ n) out q'.pending
        (subst (All (λ (t : Task). t.retry_count ≤ n)) b.oldest v.pending) in
    let same : n ≡ q'.max_retries = ap (λ (p : RetryPolicy). p.max_retries) (sym b.same_policy) in
    (
      record {
        pending = subst (λ k. All (λ (t : Task). t.retry_count ≤ k) q'.pending) same split.1;
        in_flight =
            subst (λ m. All (λ (e : Text × Task). e.1.retry_count ≤ q'.max_retries) m)
              (sym b.flying)
              (subst (λ k. All (λ (e : Text × Task). e.1.retry_count ≤ k) (track out q.in_flight))
                same (All-track n out q.in_flight split.0 v.in_flight));
        dead =
            subst (λ l. All (λ (t : Task). t.retry_count ≡ q'.max_retries + 1) l) (sym b.same_dlq)
              (subst (λ k. All (λ (t : Task). t.retry_count ≡ k + 1) q.dlq) same v.dead);
      },
      subst (λ k. All (λ (t : Task). t.retry_count ≤ k) out) same split.0,
    )

settle-Bounded :
    (o : Outcome) (q : Queue) (t : Task)
    → 0 < q.max_retries
    → t.retry_count ≤ q.max_retries
    → Bounded q
    → Bounded (settle o q t) × ((settle o q t).max_retries ≡ q.max_retries)
unfolding settle ack retry
settle-Bounded handled q t limited h b = (ack-Bounded {q = q} t.id b, refl)
settle-Bounded dropped q t limited h b = (ack-Bounded {q = q} t.id b, refl)
settle-Bounded failed q t limited h b = (retry-Bounded {q = q} t limited h b, ground arith)

settle_all-Bounded :
    (handler : Message → Outcome) (tasks : List Task) (q : Queue)
    → 0 < q.max_retries
    → All (λ (t : Task). t.retry_count ≤ q.max_retries) tasks
    → Bounded q
    → Bounded (settle_all handler tasks q)
unfolding settle_all
settle_all-Bounded handler [] q limited h b = b
settle_all-Bounded handler (t ∷ tasks) q limited h b =
    let (b', same) = settle-Bounded (handler t.message) q t limited h.0 b in
    settle_all-Bounded handler tasks (settle (handler t.message) q t) (omega arith)
      (subst (λ n. All (λ (t : Task). t.retry_count ≤ n) tasks) (sym same) h.1) b'

-- With a limit on retries, a subscriber that pops a batch and settles it keeps it: a task that is pending or in
-- flight was retried at most `max_retries` times, and a dead letter exactly once more.
pub subscriber-Bounded :
    (handler : Message → Outcome) (batch : ℕ) (q : Queue) {out : List Task} {q' : Queue}
    → 0 < q.max_retries
    → take_batch batch q ≡ some (out, q')
    → Bounded q
    → Bounded (settle_all handler out q')
subscriber-Bounded handler batch q {out} {q'} limited e v =
    let b = take_batch-Batch batch q e in
    let (v', h) = Batch-Bounded q out q' b v in
    settle_all-Bounded handler out q'
      (omega (arith, ap (λ (p : RetryPolicy). p.max_retries) b.same_policy)) h v'
