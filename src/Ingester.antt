-- ===== src/Ingester.antt =====
-- go-ingestion/internal/worker/ingester: a parsed match is written to the database, and only then
-- marked as seen (ingester.go); errors.go classifies the errors of the database, and resilient.go
-- puts a circuit breaker in front.
pub mod Kinds
pub mod Marked
pub mod Guarded
use dota2_analysis.Base.{
  ℕ, suc, ◌+◌, Bool, true, false, not, ◌&&◌, ◌||◌, List, [], ◌∷◌, Option, none, some, if◌then◌else◌,
}
use dota2_analysis.Base.Text.{Text, Text-discrete, codes, decimal}
use dota2_analysis.Breaker.{Breaker, allow, record_failure, record_success}
use dota2_analysis.Dedup.{Seen, mark_seen}

-- An error of the PostgreSQL driver, and `DBConstraintError`, which copies these fields.
pub record DbConstraintError : Type 0 where
  pub code : Text
  pub detail : Text
  pub message : Text

-- An error and what it wraps, as far as `errors.Is` and `errors.As` tell errors apart here.
pub data GoError : Type 0 where
  canceled deadline_exceeded already_seen breaker_open : GoError
  pg_error : DbConstraintError → GoError
  other : Text → GoError
  wrapped : GoError → GoError

-- `errors.As(err, &pgErr)`
unfoldable pub as_pg_error : GoError → Option DbConstraintError
as_pg_error (wrapped e) = as_pg_error e
as_pg_error (pg_error p) = some p
as_pg_error _ = none

unfoldable pub classify_db_error : Option GoError → Option DbConstraintError
unfolding as_pg_error
classify_db_error none = none
classify_db_error (some e) = as_pg_error e

unfoldable pub has_code : DbConstraintError → Text → Bool
has_code ce code = elim (Text-discrete ce.code code) [ yes _ ↦ true | no _ ↦ false ]

unfoldable pub is_retryable : Option GoError → Bool
unfolding classify_db_error has_code
is_retryable e = elim (classify_db_error e) [
  | none ↦ false
  | some ce ↦
      has_code ce (codes "40001") || has_code ce (codes "40P01") || has_code ce (codes "57014")
]

unfoldable pub is_validation : Option GoError → Bool
unfolding classify_db_error has_code
is_validation e = elim (classify_db_error e) [
  | none ↦ false
  | some ce ↦ has_code ce (codes "23505") || has_code ce (codes "23503")
]

-- `errors.Is(err, dedup.ErrAlreadySeen)`
unfoldable pub is_already_seen : GoError → Bool
is_already_seen already_seen = true
is_already_seen (wrapped e) = is_already_seen e
is_already_seen _ = false

unfoldable pub is_duplicate_constraint : Option GoError → Bool
unfolding classify_db_error has_code
is_duplicate_constraint e = elim (classify_db_error e) [
  | none ↦ false
  | some ce ↦ has_code ce (codes "23505")
]

-- The kinds of go-ingestion/internal/metrics/metrics.go that the ingester reports.
pub data FailureKind : Type 0 where
  kind_unknown kind_validate kind_db kind_timeout kind_shutdown : FailureKind

-- `errors.Is` of one of the two errors of a context.
unfoldable pub is_ctx_error : GoError → Bool
is_ctx_error canceled = true
is_ctx_error deadline_exceeded = true
is_ctx_error (wrapped e) = is_ctx_error e
is_ctx_error _ = false

-- The switch of `classify`.
unfoldable pub kind_of : DbConstraintError → FailureKind
unfolding has_code
kind_of ce =
    if has_code ce (codes "23505") || has_code ce (codes "23503")
    then kind_validate
    else if has_code ce (codes "40001") || has_code ce (codes "40P01")
    then kind_db
    else if has_code ce (codes "57014")
    then kind_timeout
    else kind_db

unfoldable pub classify : Option GoError → FailureKind
unfolding is_ctx_error classify_db_error kind_of
classify none = kind_unknown
classify (some e) =
    if is_ctx_error e
    then kind_shutdown
    else elim (classify_db_error (some e)) [ none ↦ kind_db | some ce ↦ kind_of ce ]

-- The store of matches, go-ingestion/internal/storage/matchstore: a database. A match that it
-- accepts is stored, and stays so.
pub record MatchWriter : Type 1 where
  pub Repo : Type 0
  pub Match : Type 0
  pub match_id : Match → ℕ
  pub ingest_match : Match → Repo → Option GoError × Repo
  pub IsStored : Repo → ℕ → Type 0

-- `dedup` is `none` when no dedup is configured. The metrics are the reports made so far.
pub record State (w : MatchWriter) : Type 0 where
  pub repo : w.Repo
  pub dedup : Option Seen
  pub failures : List (FailureKind × ℕ)
  pub successes : ℕ

-- What a `ResilientIngester` tells its breaker.
unfoldable pub count_result : Option GoError → Breaker → Breaker
unfolding is_already_seen is_validation
count_result none cb = record_success cb
count_result (some e) cb =
    if not (is_already_seen e) && not (is_validation (some e)) then record_failure cb else cb

module _ (w : MatchWriter) where
  -- An error of `MarkSeen` is only logged.
  unfoldable pub mark : ℕ → Option Seen → Option Seen
  mark id none = none
  mark id (some s) = some (mark_seen (decimal id) s).1

  -- What `Ingest` does with the answer of the database.
  unfoldable pub on_answer : w.Match → Option GoError → State w → Option GoError × State w
  unfolding mark classify is_duplicate_constraint
  on_answer m none s =
      (none, record s { dedup = mark (w.match_id m) s.dedup; successes = s.successes + 1 })
  on_answer m (some e) s =
      if is_duplicate_constraint (some e)
      then (some already_seen, record s { failures = (kind_validate, w.match_id m) ∷ s.failures })
      else (
        some (wrapped e),
        record s { failures = (classify (some e), w.match_id m) ∷ s.failures },
      )

  unfoldable pub ingest : w.Match → State w → Option GoError × State w
  unfolding on_answer
  ingest m s =
      let (answer, repo) = w.ingest_match m s.repo in on_answer m answer (record s { repo = repo })

  -- `Ingest` of a `ResilientIngester`, over the state of the breaker, if there is one.
  unfoldable pub resilient_ingest :
      w.Match → Option Breaker × State w → Option GoError × (Option Breaker × State w)
  unfolding ingest count_result
  resilient_ingest m (none, s) = let (e, s') = ingest m s in (e, (none, s'))
  resilient_ingest m (some cb, s) =
      if allow cb
      then (let (e, s') = ingest m s in (e, (some (count_result e cb), s')))
      else (some breaker_open, (some cb, s))
