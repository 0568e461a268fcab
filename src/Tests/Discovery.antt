-- ===== src/Tests/Discovery.antt =====
-- The discoverer: go-ingestion/internal/worker/discovery/matches.
use mathlib.Core.List.{Memᴰ}
use dota2_analysis.Base.{
  ℕ, ◌≡◌, refl, true, not, ◌&&◌, List, [], ◌∷◌, ◌++◌, none, some, arith, ℕ_discrete, Map, lookup,
  pos,
}
use dota2_analysis.Base.Text.{Text, Text-discrete, codes, decimal}
use dota2_analysis.Base.Numbers.{atoi}
use dota2_analysis.Dedup.{Seen, is_seen, check_batch}
use dota2_analysis.Queue as Queue
use dota2_analysis.Discovery.{
  MatchRef, RawMessage, scalar, array, text, integer, parse_match_refs, no_response, rows, Attempt,
  found, fetch_loop, Config, select_query,
}
use dota2_analysis.Discovery.Cycle.{task_payload, is_unknown, run_once}
use dota2_analysis.Discovery.Queued.{in_memory, payloads, task_payloads, select, run_once-payloads}

abbrev row : Text → Map Text RawMessage
row id = (codes "match_id", scalar (text id)) ∷ (codes "start_time", scalar (integer (pos 9))) ∷ []

abbrev answered : List (Map Text RawMessage)
answered =
    row (codes "12")
    ∷ row (codes "-3")
    ∷ ((codes "match_ids", array (integer (pos 13) ∷ text (codes "x") ∷ [])) ∷ [])
    ∷ []

abbrev twelve : MatchRef
twelve = record { match_id = 12; start_time = pos 9 }

abbrev thirteen : MatchRef
thirteen = record { match_id = 13; start_time = pos 0 }

answered_parses : parse_match_refs answered ≡ twelve ∷ thirteen ∷ []
unfolding parse_match_refs lookup Text-discrete ℕ_discrete atoi
answered_parses = refl

abbrev attempts : List Attempt
attempts =
    record { live = true; answer = no_response; waits = true }
    ∷ record { live = true; answer = rows 200 answered; waits = true }
    ∷ []

attempts_find : fetch_loop none attempts ≡ found (twelve ∷ thirteen ∷ [])
unfolding fetch_loop lookup Text-discrete ℕ_discrete atoi
attempts_find = refl

-- The first match was seen before, and the database knows neither.
abbrev seen : Seen
seen = record { seen = (codes "12", tt) ∷ [] }

ids_of : List MatchRef → List ℕ
ids_of [] = []
ids_of (r ∷ refs) = r.match_id ∷ ids_of refs

ids_of_mem :
    (refs : List MatchRef) (r : MatchRef) → Memᴰ r refs → is_unknown r.match_id (ids_of refs) ≡ true
unfolding ids_of is_unknown
ids_of_mem [] r m = elim m [ ]
ids_of_mem (x ∷ refs) r (Memᴰ.head e) = ground (arith, e)
ids_of_mem (x ∷ refs) r (Memᴰ.tail m) = ground (arith, ids_of_mem refs r m)

abbrev cfg : Config
cfg = record {
  queries = (codes "default", codes "select") ∷ [];
  default_key = codes "default";
  file_key = [];
  retry_backoff = 500;
  dedup = some (λ keys. some (check_batch keys seen));
  reader = some (λ refs. some (ids_of refs));
}

cfg_selects : select_query cfg ≡ some (codes "select")
unfolding select_query lookup Text-discrete ℕ_discrete
cfg_selects = refl

run_once-payloads_example :
    (q : Queue.Queue) × (run_once in_memory cfg attempts (Queue.new (record { max_retries = 3 }))
      ≡ (none, q))
    × (payloads q
        ≡ payloads (Queue.new (record { max_retries = 3 }))
          ++ task_payloads (
              select
                (λ r. not (is_seen (decimal r.match_id) seen) && true)
                (twelve ∷ thirteen ∷ [])))
run_once-payloads_example =
    run_once-payloads cfg attempts (Queue.new (record { max_retries = 3 })) (codes "select")
      (twelve ∷ thirteen ∷ []) seen (λ refs. some (ids_of refs)) (λ id. true) cfg_selects
      attempts_find refl refl (λ refs. (ids_of refs, refl, ids_of_mem refs))

one_is_left :
    task_payloads
      (select (λ r. not (is_seen (decimal r.match_id) seen) && true) (twelve ∷ thirteen ∷ []))
    ≡ task_payload 13 ∷ []
unfolding is_seen lookup Text-discrete ℕ_discrete decimal
one_is_left = refl
