-- ===== src/Queue/Tracking.antt =====
-- What `Pop` moves from the pending tasks to the tasks in flight.
use mathlib.Core.List.{Perm, Nodup, Nodup-cons, perm_middle, mem-append_right}
use mathlib.Core.List.Perm
use dota2_analysis.Base.{
  ℕ, ◌≡◌, refl, sym, subst, List, [], ◌∷◌, ◌++◌, map, some, length, Map, insert, delete, keys,
  delete_absent, take-append-drop, arith, ltb, if◌then◌else◌,
}
use dota2_analysis.Base.Text.{Text, Text-discrete}
use dota2_analysis.Queue.{Task, Queue, track, take_batch}

abbrev pub task_ids : List Task → List Text
task_ids = map (λ t. t.id)

abbrev pub tracked : List Task → Map Text Task
tracked = map (λ t. (t.id, t))

-- Tasks with ids that are new to the map are added, and replace nothing.
pub track-perm :
    (ts : List Task) (m : Map Text Task)
    → Nodup (task_ids ts ++ keys m)
    → Perm (track ts m) (tracked ts ++ m)
unfolding track insert
track-perm [] m n = Perm.refl m
track-perm (t ∷ ts) m n =
    let fresh = (Nodup-cons.0 n).0 in
    let same : delete Text-discrete t.id m ≡ m =
      delete_absent Text-discrete t.id m (λ i. fresh (mem-append_right (task_ids ts) i)) in
    subst (λ m'. Perm (track ts ((t.id, t) ∷ m')) ((t.id, t) ∷ (tracked ts ++ m))) (sym same)
      (Perm.trans
        (track-perm ts ((t.id, t) ∷ m)
          (Perm.nodup (Perm.symm (perm_middle (task_ids ts) (keys m))) n))
        (perm_middle (tracked ts) m))

-- What one turn of `Pop` yields: the oldest tasks, which are no longer pending, and are in flight.
pub record Batch (q : Queue) (out : List Task) (q' : Queue) : Type 0 where
  pub oldest : q.pending ≡ out ++ q'.pending
  pub flying : q'.in_flight ≡ track out q.in_flight
  pub same_dlq : q'.dlq ≡ q.dlq
  pub same_seq : q'.seq ≡ q.seq
  pub same_policy : q'.policy ≡ q.policy

pub take_batch-Batch :
    (batch : ℕ) (q : Queue) {out : List Task} {q' : Queue}
    → take_batch batch q ≡ some (out, q')
    → Batch q out q'
unfolding take_batch
take_batch-Batch batch q {out} {q'} e = by_pending q.pending refl
  where
    by_pending : (p : List Task) → q.pending ≡ p → Batch q out q'
    by_pending [] h = ground arith
    by_pending (t ∷ rest) h = ground (
      arith,
      take-append-drop (if ltb (length (t ∷ rest)) batch then length (t ∷ rest) else batch)
          (t ∷ rest),
    )
