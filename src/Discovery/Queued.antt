-- ===== src/Discovery/Queued.antt =====
-- A cycle of the discoverer over the in-memory dedup and the in-memory queue.
use mathlib.Core.List.{append-nil, append_assoc, map-append, Memᴰ}
use dota2_analysis.Base.{
  ℕ, ◌≡◌, refl, sym, ap, ◌∙◌, Bool, true, not, ◌&&◌, inl, inr, List, [], ◌∷◌, ◌++◌, none, some,
  Bool-cases, if◌then◌else◌, map,
}
use dota2_analysis.Base.Text.{Text, decimal}
use dota2_analysis.Dedup.{Seen, is_seen, check_batch}
use dota2_analysis.Dedup.Marks.{check_batch-is_seen}
use dota2_analysis.Handlers.{Publisher}
use dota2_analysis.Queue as Queue
use dota2_analysis.Queue.{Message}
use dota2_analysis.Discovery.{
  MatchRef, Attempt, found, fetch_loop, UnknownIds, Config, select_query,
}
use dota2_analysis.Discovery.Cycle.{
  task_payload, ref_keys, is_marked, drop_seen, on_checked, filter_seen, is_unknown, keep_unknown,
  on_unknown, filter_known, on_published, publish_all, on_end, on_query, run_once,
}

-- `Publish` of the in-memory queue, with a live context.
abbrev pub in_memory : Publisher
in_memory = record { Q = Queue.Queue; publish = λ msg q. (true, Queue.publish q msg) }

abbrev pub payloads : Queue.Queue → List Text
payloads q = map (λ t. t.payload) q.pending

abbrev pub task_payloads : List MatchRef → List Text
task_payloads refs = map (λ r. task_payload r.match_id) refs

-- The references of which `p` holds.
abbrev pub select : (MatchRef → Bool) → List MatchRef → List MatchRef
select p [] = []
select p (r ∷ refs) = if p r then r ∷ select p refs else select p refs

payloads-publish :
    (q : Queue.Queue) (msg : Message)
    → payloads (Queue.publish q msg) ≡ payloads q ++ msg.payload ∷ []
unfolding Queue.publish
payloads-publish q msg = map-append (λ (t : Queue.Task). t.payload) q.pending _

publish_all-payloads :
    (refs : List MatchRef) (q : Queue.Queue)
    → (q' : Queue.Queue) × (publish_all in_memory refs q ≡ (none, q'))
      × (payloads q' ≡ payloads q ++ task_payloads refs)
unfolding publish_all on_published
publish_all-payloads [] q = (q, refl, sym (append-nil (payloads q)))
publish_all-payloads (r ∷ refs) q =
    let msg : Message = record { id = []; payload = task_payload r.match_id; headers = [] } in
    let (q', e, p) = publish_all-payloads refs (Queue.publish q msg) in
    (
      q',
      e,
      p
          ∙ ap (λ l. l ++ task_payloads refs) (payloads-publish q msg)
          ∙ append_assoc (payloads q) (task_payload r.match_id ∷ []) (task_payloads refs),
    )

drop_seen-select :
    (s : Seen) (all : List Text) (refs : List MatchRef)
    → ((k : Text) → Memᴰ k (ref_keys refs) → Memᴰ k all)
    → drop_seen (check_batch all s) refs ≡ select (λ r. not (is_seen (decimal r.match_id) s)) refs
unfolding drop_seen is_marked ref_keys
drop_seen-select s all [] sub = refl
drop_seen-select s all (r ∷ refs) sub =
    let key = decimal r.match_id in
    let marked : is_marked key (check_batch all s) ≡ is_seen key s =
      rw (check_batch-is_seen all s key (sub key (Memᴰ.head refl)), is_marked) refl in
    let ih = drop_seen-select s all refs (λ k m. sub k (Memᴰ.tail m)) in
    elim (Bool-cases (is_seen key s)) [
      | inl old ↦ rw (marked ∙ old, drop_seen) (rw old ih)
      | inr new ↦ rw (marked ∙ new, drop_seen) (rw new (ap (◌∷◌ r) ih))
    ]

select-select :
    (p q : MatchRef → Bool) (refs : List MatchRef)
    → select p (select q refs) ≡ select (λ r. q r && p r) refs
select-select p q [] = refl
select-select p q (r ∷ refs) =
    let ih = select-select p q refs in
    elim (Bool-cases (q r)) [
      | inl kept ↦ rw kept (ap (λ l. if p r then r ∷ l else l) ih)
      | inr out ↦ rw out ih
    ]

-- `UnknownIDs` answers, and of the references it is given names those that the database lacks.
abbrev pub Answers : UnknownIds → (ℕ → Bool) → Type 0
Answers read lacks =
    (refs : List MatchRef)
    → (ids : List ℕ) × (read refs ≡ some ids)
      × ((r : MatchRef) → Memᴰ r refs → is_unknown r.match_id ids ≡ lacks r.match_id)

keep_unknown-select :
    (lacks : ℕ → Bool) (ids : List ℕ) (refs : List MatchRef)
    → ((r : MatchRef) → Memᴰ r refs → is_unknown r.match_id ids ≡ lacks r.match_id)
    → keep_unknown ids refs ≡ select (λ r. lacks r.match_id) refs
unfolding keep_unknown
keep_unknown-select lacks ids [] same = refl
keep_unknown-select lacks ids (r ∷ refs) same =
    let ih = keep_unknown-select lacks ids refs (λ x m. same x (Memᴰ.tail m)) in
    rw (same r (Memᴰ.head refl)) (ap (λ l. if lacks r.match_id then r ∷ l else l) ih)

filter_known-select :
    (read : UnknownIds) (lacks : ℕ → Bool) (refs : List MatchRef)
    → Answers read lacks
    → filter_known (some read) refs ≡ select (λ r. lacks r.match_id) refs
unfolding filter_known on_unknown
filter_known-select read lacks [] answers = refl
filter_known-select read lacks (r ∷ refs) answers =
    let (ids, e, same) = answers (r ∷ refs) in
    ap (on_unknown (r ∷ refs)) e ∙ keep_unknown-select lacks ids (r ∷ refs) same

filter_seen-select :
    (s : Seen) (refs : List MatchRef)
    → filter_seen (some (λ keys. some (check_batch keys s))) refs
      ≡ select (λ r. not (is_seen (decimal r.match_id) s)) refs
unfolding filter_seen on_checked
filter_seen-select s refs = drop_seen-select s (ref_keys refs) refs (λ k m. m)

-- Let the query exist, the fetch end with `refs`, the dedup be the in-memory one and the database
-- answer. Then a cycle over the in-memory queue returns no error, and appends to the pending tasks, in
-- order, the fetch task of exactly those matches that the dedup has not seen and the database lacks.
pub run_once-payloads :
    (cfg : Config) (attempts : List Attempt) (q : Queue.Queue) (sql : Text) (refs : List MatchRef)
    (s : Seen) (read : UnknownIds) (lacks : ℕ → Bool)
    → select_query cfg ≡ some sql
    → fetch_loop none attempts ≡ found refs
    → cfg.dedup ≡ some (λ keys. some (check_batch keys s))
    → cfg.reader ≡ some read
    → Answers read lacks
    → (q' : Queue.Queue) × (run_once in_memory cfg attempts q ≡ (none, q'))
      × (payloads q'
          ≡ payloads q
            ++ task_payloads
                (select (λ r. not (is_seen (decimal r.match_id) s) && lacks r.match_id) refs))
unfolding run_once on_query on_end
run_once-payloads cfg attempts q sql refs s read lacks has_query ended deduped reads answers =
    let wanted = select (λ r. not (is_seen (decimal r.match_id) s) && lacks r.match_id) refs in
    let filtered : filter_known cfg.reader (filter_seen cfg.dedup refs) ≡ wanted =
      ap (λ c. filter_known cfg.reader (filter_seen c refs)) deduped
      ∙ ap (λ c. filter_known c (filter_seen (some (λ keys. some (check_batch keys s))) refs)) reads
      ∙ ap (filter_known (some read)) (filter_seen-select s refs)
      ∙ filter_known-select read lacks _ answers
      ∙ select-select (λ r. lacks r.match_id) (λ r. not (is_seen (decimal r.match_id) s)) refs in
    let (q', e, p) = publish_all-payloads wanted q in
    (
      q',
      rw (has_query, on_query)
          (rw (ended, on_end) (ap (λ l. publish_all in_memory l q) filtered ∙ e)),
      p,
    )
