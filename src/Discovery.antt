-- ===== src/Discovery.antt =====
-- go-ingestion/internal/worker/discovery/matches/cycle.go: one cycle of the discoverer asks the
-- explorer for matches, drops those that are known, and queues a fetch task for each of the others.
pub mod Cycle
pub mod Parsed
pub mod Queued
use dota2_analysis.Base.{
  ℕ, zero, suc, ◌+◌, ◌*◌, ◌/◌, Bool, true, false, not, ◌||◌, ◌⊎◌, inl, inr, List, [], ◌∷◌, ◌++◌,
  Option, none, some, ltb, ◌==◌, if◌then◌else◌, map, Map, lookup, ℤ, pos, negsuc,
}
use dota2_analysis.Base.Numbers.{atoi}
use dota2_analysis.Base.Text.{Text, Text-discrete, codes, decimal}
use dota2_analysis.Queue.{Message}

pub record MatchRef : Type 0 where
  pub match_id : ℕ
  pub start_time : ℤ

-- JSON as far as the cycle tells values apart: null, strings, numbers that are an int64, and the
-- rest; a value of a row may also be an array.
pub data Scalar : Type 0 where
  null other : Scalar
  text : Text → Scalar
  integer : ℤ → Scalar

pub data RawMessage : Type 0 where
  scalar : Scalar → RawMessage
  array : List Scalar → RawMessage

unfoldable pub positive : Option ℤ → Option ℕ
positive (some (pos (suc n))) = some (suc n)
positive _ = none

-- `extractID`; null reads as the empty string, which is no number.
unfoldable pub extract_id : Scalar → Option ℕ
unfolding positive
extract_id (text s) = positive (atoi s)
extract_id (integer z) = positive (some z)
extract_id null = none
extract_id other = none

unfoldable pub raw_id : RawMessage → Option ℕ
unfolding extract_id
raw_id (scalar v) = extract_id v
raw_id (array vs) = none

unfoldable pub or_zero : Option ℤ → ℤ
or_zero none = pos 0
or_zero (some z) = z

-- `extractInt64` of a column; 0 where there is none.
unfoldable pub extract_int64 : Option RawMessage → ℤ
unfolding or_zero
extract_int64 (some (scalar (text s))) = or_zero (atoi s)
extract_int64 (some (scalar (integer z))) = z
extract_int64 _ = pos 0

unfoldable pub cons_id : Option ℕ → ℤ → List MatchRef → List MatchRef
cons_id none start refs = refs
cons_id (some id) start refs = record { match_id = id; start_time = start } ∷ refs

-- The loop over an array "match_ids".
unfoldable pub legacy_refs : List Scalar → List MatchRef
unfolding extract_id cons_id
legacy_refs [] = []
legacy_refs (v ∷ vs) = cons_id (extract_id v) (pos 0) (legacy_refs vs)

unfoldable pub legacy_column : Option RawMessage → List MatchRef
unfolding legacy_refs
legacy_column (some (array vs)) = legacy_refs vs
legacy_column _ = []

-- What a row with the value of its column "match_id" adds.
unfoldable pub row_refs : Option RawMessage → Map Text RawMessage → List MatchRef
unfolding legacy_column raw_id extract_int64 cons_id
row_refs none row = legacy_column (lookup Text-discrete (codes "match_ids") row)
row_refs (some rm) row =
    cons_id (raw_id rm) (extract_int64 (lookup Text-discrete (codes "start_time") row)) []

-- `parseMatchRefs` of the rows of the envelope.
unfoldable pub parse_match_refs : List (Map Text RawMessage) → List MatchRef
unfolding row_refs
parse_match_refs [] = []
parse_match_refs (row ∷ rows) =
    row_refs (lookup Text-discrete (codes "match_id") row) row ++ parse_match_refs rows

pub data FetchError : Type 0 where
  bad_request http_failed read_failed decode_failed : FetchError
  unexpected_status : ℕ → FetchError

-- The answer of the explorer: an error, or a status with a body, which may be cut off, or be
-- no JSON of the right shape.
pub data Answer : Type 0 where
  no_request no_response : Answer
  cut_off : (status : ℕ) → Answer
  no_json : (status : ℕ) → Answer
  rows : (status : ℕ) → List (Map Text RawMessage) → Answer

-- A body is read only under the status 200.
unfoldable pub on_status : ℕ → FetchError ⊎ List MatchRef → FetchError ⊎ List MatchRef
on_status status result = if status == 200 then result else inl (unexpected_status status)

unfoldable pub fetch_match_refs : Answer → FetchError ⊎ List MatchRef
unfolding on_status parse_match_refs
fetch_match_refs no_request = inl bad_request
fetch_match_refs no_response = inl http_failed
fetch_match_refs (cut_off status) = on_status status (inl read_failed)
fetch_match_refs (no_json status) = on_status status (inl decode_failed)
fetch_match_refs (rows status rs) = on_status status (inr (parse_match_refs rs))

-- One turn of the loop that fetches: whether the context is alive before it, what is answered, and
-- whether the context stays alive while the loop waits for the next turn.
pub record Attempt : Type 0 where
  pub live : Bool
  pub answer : Answer
  pub waits : Bool

-- How the loop ends. `running` is a loop that has not ended with the attempts so far.
pub data FetchEnd : Type 0 where
  running canceled : FetchEnd
  found : List MatchRef → FetchEnd
  gave_up : FetchError → FetchEnd

-- The context is at an end before a turn: without an earlier error there are no matches.
unfoldable pub on_dead : Option FetchError → FetchEnd
on_dead none = found []
on_dead (some e) = gave_up e

unfoldable pub on_fetched : FetchError ⊎ List MatchRef → Bool → (FetchError → FetchEnd) → FetchEnd
on_fetched (inr refs) waits next = found refs
on_fetched (inl e) true next = next e
on_fetched (inl e) false next = canceled

unfoldable pub fetch_loop : Option FetchError → List Attempt → FetchEnd
unfolding on_dead on_fetched fetch_match_refs
fetch_loop last [] = running
fetch_loop last (a ∷ attempts) =
    let turn = on_fetched (fetch_match_refs a.answer) a.waits (λ e. fetch_loop (some e) attempts) in
    if a.live then turn else on_dead last

abbrev pub max_backoff : ℕ
max_backoff = 30000000000

unfoldable pub capped : (limit backoff : ℕ) → ℕ
capped limit backoff = if ltb limit backoff || backoff == 0 then limit else backoff

-- The time to wait after an attempt; `jitter` is random below the backoff. Durations are far below
-- the limit of an int64 here.
unfoldable pub wait_after : (retry_backoff attempt : ℕ) → (jitter : ℕ → ℕ) → ℕ
unfolding capped
wait_after retry_backoff attempt jitter =
    let backoff = capped max_backoff (retry_backoff * attempt) in backoff / 2 + jitter backoff / 2

-- `CheckBatch` of the dedup and `UnknownIDs` of the database; `none` is an error.
abbrev pub CheckBatch : Type 0
CheckBatch = List Text → Option (Map Text Bool)

abbrev pub UnknownIds : Type 0
UnknownIds = List MatchRef → Option (List ℕ)

pub record Config : Type 0 where
  pub queries : Map Text Text
  pub default_key : Text
  pub file_key : Text
  pub retry_backoff : ℕ
  pub dedup : Option CheckBatch
  pub reader : Option UnknownIds

pub data NewError : Type 0 where
  out_required doer_required no_queries : NewError
  default_not_found : Text → NewError

unfoldable pub is_blank : Text → Bool
is_blank [] = true
is_blank (c ∷ cs) = false

unfoldable pub has_query : Text → Map Text Text → Bool
has_query key queries = elim (lookup Text-discrete key queries) [ none ↦ false | some _ ↦ true ]

-- `New`, with the defaults that it sets.
unfoldable pub new : (has_out has_doer : Bool) → Config → NewError ⊎ Config
unfolding is_blank has_query
new has_out has_doer cfg =
    let key = if is_blank cfg.default_key then codes "default" else cfg.default_key in
    let backoff = if cfg.retry_backoff == 0 then 500000000 else cfg.retry_backoff in
    if not has_out
    then inl out_required
    else if not has_doer
    then inl doer_required
    else elim cfg.queries [
      | [] ↦ inl no_queries
      | q ∷ qs ↦
          if has_query key (q ∷ qs)
          then inr (record cfg { default_key = key; retry_backoff = backoff })
          else inl (default_not_found key)
    ]

-- The query that a cycle runs: the configured file if there is one.
unfoldable pub select_query : Config → Option Text
unfolding is_blank
select_query cfg =
    lookup Text-discrete (if is_blank cfg.file_key then cfg.default_key else cfg.file_key)
      cfg.queries
