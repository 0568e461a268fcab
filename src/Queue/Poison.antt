-- ===== src/Queue/Poison.antt =====
-- A message whose handler always fails: how `Subscribe` gets rid of it.
use dota2_analysis.Base.{
  ℕ, zero, suc, ◌+◌, ◌<◌, ◌≡◌, refl, ap, ◌∙◌, true, false, [], ◌∷◌, ◌++◌, insert, delete, arith,
}
use dota2_analysis.Queue.{
  Message, Task, Queue, track, should_dlq, Outcome, failed, subscribe_round, task_id,
}

abbrev pub rounds : ℕ → (Message → Outcome) → Queue → Queue
rounds zero handler q = q
rounds (suc n) handler q = rounds n handler (subscribe_round handler q)

-- A task with its payload and headers, under another id and count.
abbrev pub IsRetryOf : Task → Task → Type 0
IsRetryOf u t = (u.payload ≡ t.payload) × (u.headers ≡ t.headers)

fail_once :
    (handler : Message → Outcome) (q : Queue) (t : Task)
    → ((m : Message) → handler m ≡ failed)
    → q.pending ≡ t ∷ []
    → q.in_flight ≡ []
    → let q' = subscribe_round handler q in
      (q'.in_flight ≡ [])
      × (q'.max_retries ≡ q.max_retries)
      × (should_dlq q.policy (t.retry_count + 1) ≡ true
          → (q'.pending ≡ [])
            × (q'.dlq ≡ q.dlq ++ record t { retry_count = t.retry_count + 1 } ∷ []))
      × (should_dlq q.policy (t.retry_count + 1) ≡ false
          → (q'.pending
              ≡ record {
                message = record (t.message) { id = task_id (q.seq + 1) };
                retry_count = t.retry_count + 1;
              }
                ∷ [])
            × (q'.dlq ≡ q.dlq))
unfolding subscribe_round track insert delete
fail_once handler q t fails p f = ground (arith, fails t.message)

limit_reached :
    (q : Queue) (n : ℕ) → 0 < q.max_retries → n ≡ q.max_retries → should_dlq q.policy (n + 1) ≡ true
unfolding should_dlq
limit_reached q n limited h = ground arith

limit_ahead : (q : Queue) (n : ℕ) → n < q.max_retries → should_dlq q.policy (n + 1) ≡ false
unfolding should_dlq
limit_ahead q n h = ground arith

-- With a limit on retries, and no more retries of it than the limit, a lone task whose handler always
-- fails is delivered until its retries are used up, and then dead: after `max_retries - retry_count + 1` rounds nothing is pending or in flight, and the dead
-- letters have gained the task, with its payload and headers, counted `max_retries + 1` times.
pub poison :
    (k : ℕ) (handler : Message → Outcome) (q : Queue) (t : Task)
    → ((m : Message) → handler m ≡ failed)
    → q.pending ≡ t ∷ []
    → q.in_flight ≡ []
    → 0 < q.max_retries
    → t.retry_count + k ≡ q.max_retries
    → let q' = rounds (suc k) handler q in
      (q'.pending ≡ [])
      × (q'.in_flight ≡ [])
      × ((d : Task) × (q'.dlq ≡ q.dlq ++ d ∷ [])
          × IsRetryOf d t
          × (d.retry_count ≡ q.max_retries + 1))
poison zero handler q t fails p f limited h =
    let (idle, same, dead, _) = fail_once handler q t fails p f in
    let (none_left, buried) = dead (limit_reached q t.retry_count limited (omega arith)) in
    (none_left, idle, (_, buried, (refl, refl), omega arith))
poison (suc k) handler q t fails p f limited h =
    let (idle, same, _, alive) = fail_once handler q t fails p f in
    let (again, kept) = alive (limit_ahead q t.retry_count (omega arith)) in
    let (none_left, idle', (d, buried, like, count)) =
      poison k handler (subscribe_round handler q) _ fails again idle (omega arith) (omega arith) in
    (none_left, idle', (d, buried ∙ ap (λ l. l ++ d ∷ []) kept, like, omega arith))
