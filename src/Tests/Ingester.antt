-- ===== src/Tests/Ingester.antt =====
-- The ingester: go-ingestion/internal/worker/ingester, over a database that keeps a list of ids.
use mathlib.Core.List.{Memᴰ}
use dota2_analysis.Base.{
  ℕ, ◌≡◌, refl, inl, inr, true, false, List, [], ◌∷◌, Option, none, some, ltb, if◌then◌else◌,
  lookup, insert, ℕ_discrete, arith, Bool-cases,
}
use dota2_analysis.Base.Text.{Text, Text-discrete, codes, decimal}
use dota2_analysis.Breaker.{Breaker, allow, new_circuit_breaker}
use dota2_analysis.Dedup.{is_seen, mark_seen}
use dota2_analysis.Ingester.{
  GoError, pg_error, other, wrapped, is_retryable, is_validation, MatchWriter, State, ingest,
  resilient_ingest, is_already_seen,
}
use dota2_analysis.Ingester.Marked.{marked, ingest_all, ingest_all_sound}
use dota2_analysis.Ingester.Guarded.{is_bad_match, resilient_all, outage_trips}

abbrev pg : Text → GoError
pg code = wrapped (pg_error (record { code = code; detail = []; message = [] }))

deadlock_retryable : is_retryable (some (pg (codes "40P01"))) ≡ true
unfolding is_retryable Text-discrete ℕ_discrete
deadlock_retryable = refl

-- A match is its id; ids below 100 are accepted.
abbrev accept : ℕ → List ℕ → Option GoError × List ℕ
accept m r = if ltb m 100 then (none, m ∷ r) else (some (pg (codes "23503")), r)

abbrev writer : MatchWriter
writer = record {
  Repo = List ℕ;
  Match = ℕ;
  match_id = λ m. m;
  ingest_match = accept;
  IsStored = λ r id. Memᴰ id r;
}

accept_stores : (m : ℕ) (r : List ℕ) → (accept m r).0 ≡ none → Memᴰ m (accept m r).1
accept_stores m r e = elim (Bool-cases (ltb m 100)) [
  | inl small ↦ rw small (Memᴰ.head refl)
  | inr large ↦ absurd (ground arith)
]

accept_keeps : (m : ℕ) (r : List ℕ) (id : ℕ) → Memᴰ id r → Memᴰ id (accept m r).1
accept_keeps m r id i = elim (Bool-cases (ltb m 100)) [
  | inl small ↦ rw small (Memᴰ.tail i)
  | inr large ↦ rw large i
]

abbrev start : State writer
start = record { repo = []; dedup = some (record { seen = [] }); failures = []; successes = 0 }

nothing_marked : (id : ℕ) → marked start.dedup id ≡ true → Memᴰ id start.repo
unfolding is_seen lookup
nothing_marked id e = absurd (cc)

marked_seven : marked (ingest_all writer (7 ∷ 300 ∷ []) start).dedup 7 ≡ true
unfolding ingest is_seen lookup insert Text-discrete ℕ_discrete decimal mark_seen
marked_seven = refl

ingest_all_sound_example : Memᴰ 7 (ingest_all writer (7 ∷ 300 ∷ []) start).repo
ingest_all_sound_example =
    ingest_all_sound writer accept_stores accept_keeps (7 ∷ 300 ∷ []) start nothing_marked 7
      marked_seven

abbrev cb : Breaker
cb = new_circuit_breaker 2

cb_allows : allow cb ≡ true
unfolding allow new_circuit_breaker
cb_allows = refl

foreign_key_bad : is_bad_match (pg (codes "23503")) ≡ true
unfolding is_validation is_already_seen Text-discrete ℕ_discrete
foreign_key_bad = refl

-- A database that is down.
abbrev down : MatchWriter
down = record {
  Repo = Unit {0};
  Match = ℕ;
  match_id = λ m. m;
  ingest_match = λ m r. (some (other (codes "connection refused")), r);
  IsStored = λ r id. Unit {0};
}

abbrev down_start : State down
down_start = record { repo = tt; dedup = none; failures = []; successes = 0 }

refused_is_no_match_error : is_bad_match (other (codes "connection refused")) ≡ false
unfolding is_validation is_already_seen
refused_is_no_match_error = refl

outage_trips_example :
    (cb' : Breaker) × ((resilient_all down
        (7 ∷ 8 ∷ [])
        (some (new_circuit_breaker 2), down_start)).0
      ≡ some cb')
    × (allow cb' ≡ false)
    × ((next : ℕ) (s' : State down)
        → (resilient_ingest down next (some cb', s')).1 ≡ (some cb', s'))
outage_trips_example =
    outage_trips down (λ m r. (other (codes "connection refused"), refl, refused_is_no_match_error))
      7 (8 ∷ []) down_start
