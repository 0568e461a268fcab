-- ===== src/Discovery/Cycle.antt =====
-- `RunOnce` of go-ingestion/internal/worker/discovery/matches/cycle.go: fetch, drop what is known,
-- publish.
use dota2_analysis.Base.{
  ℕ, Bool, true, false, ◌||◌, List, [], ◌∷◌, ◌++◌, Option, none, some, ◌==◌, if◌then◌else◌, map,
  Map, lookup,
}
use dota2_analysis.Base.Text.{Text, Text-discrete, codes, decimal}
use dota2_analysis.Handlers.{Publisher}
use dota2_analysis.Discovery.{
  MatchRef, FetchError, Attempt, FetchEnd, running, canceled, found, gave_up, fetch_loop,
  CheckBatch, UnknownIds, Config, select_query,
}

-- `json.Marshal` of a `fetcher.Task`.
unfoldable pub task_payload : ℕ → Text
task_payload id = 123 ∷ 34 ∷ codes "match_id" ++ (34 ∷ 58 ∷ decimal id ++ 125 ∷ [])

unfoldable pub ref_keys : List MatchRef → List Text
ref_keys refs = map (λ r. decimal r.match_id) refs

-- A key that the map does not hold reads as false.
unfoldable pub is_marked : Text → Map Text Bool → Bool
is_marked key seen = elim (lookup Text-discrete key seen) [ none ↦ false | some b ↦ b ]

unfoldable pub drop_seen : Map Text Bool → List MatchRef → List MatchRef
unfolding is_marked
drop_seen seen [] = []
drop_seen seen (r ∷ refs) =
    let rest = drop_seen seen refs in if is_marked (decimal r.match_id) seen then rest else r ∷ rest

unfoldable pub on_checked : List MatchRef → Option (Map Text Bool) → List MatchRef
unfolding drop_seen
on_checked refs none = refs
on_checked refs (some seen) = drop_seen seen refs

-- The filter by the dedup; an error leaves it to the database.
unfoldable pub filter_seen : Option CheckBatch → List MatchRef → List MatchRef
unfolding ref_keys on_checked
filter_seen none refs = refs
filter_seen (some check) refs = on_checked refs (check (ref_keys refs))

unfoldable pub is_unknown : ℕ → List ℕ → Bool
is_unknown id [] = false
is_unknown id (i ∷ ids) = i == id || is_unknown id ids

unfoldable pub keep_unknown : List ℕ → List MatchRef → List MatchRef
unfolding is_unknown
keep_unknown ids [] = []
keep_unknown ids (r ∷ refs) =
    let rest = keep_unknown ids refs in if is_unknown r.match_id ids then r ∷ rest else rest

unfoldable pub on_unknown : List MatchRef → Option (List ℕ) → List MatchRef
unfolding keep_unknown
on_unknown refs none = refs
on_unknown refs (some ids) = keep_unknown ids refs

-- The filter by the database, which is not asked about nothing; an error lets all through.
unfoldable pub filter_known : Option UnknownIds → List MatchRef → List MatchRef
unfolding on_unknown
filter_known none refs = refs
filter_known (some read) [] = []
filter_known (some read) (r ∷ refs) = on_unknown (r ∷ refs) (read (r ∷ refs))

pub data RunError : Type 0 where
  query_not_found context_error still_running : RunError
  fetch_failed : FetchError → RunError
  publish_failed : ℕ → RunError

module _ (out : Publisher) where
  unfoldable pub on_published :
      ℕ → Bool × out.Q → (out.Q → Option RunError × out.Q) → Option RunError × out.Q
  on_published id (false, q) next = (some (publish_failed id), q)
  on_published id (true, q) next = next q

  -- The loop that publishes ends with its first error.
  unfoldable pub publish_all : List MatchRef → out.Q → Option RunError × out.Q
  unfolding on_published task_payload
  publish_all [] q = (none, q)
  publish_all (r ∷ refs) q =
      on_published r.match_id
        (out.publish (record { id = []; payload = task_payload r.match_id; headers = [] }) q)
        (publish_all refs)

  unfoldable pub on_end : Config → FetchEnd → out.Q → Option RunError × out.Q
  unfolding filter_seen filter_known publish_all
  on_end cfg running q = (some still_running, q)
  on_end cfg canceled q = (some context_error, q)
  on_end cfg (gave_up e) q = (some (fetch_failed e), q)
  on_end cfg (found refs) q = publish_all (filter_known cfg.reader (filter_seen cfg.dedup refs)) q

  unfoldable pub on_query : Config → Option Text → List Attempt → out.Q → Option RunError × out.Q
  unfolding on_end fetch_loop
  on_query cfg none attempts q = (some query_not_found, q)
  on_query cfg (some sql) attempts q = on_end cfg (fetch_loop none attempts) q

  -- `RunOnce` over the attempts of its loop; `still_running` is no error of the code.
  unfoldable pub run_once : Config → List Attempt → out.Q → Option RunError × out.Q
  unfolding select_query on_query
  run_once cfg attempts q = on_query cfg (select_query cfg) attempts q
