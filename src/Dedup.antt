-- ===== src/Dedup.antt =====
-- go-ingestion/internal/dedup/inmem/seen.go: the set of the keys that were seen, behind the
-- interface of go-ingestion/internal/dedup/seen.go.
pub mod Marks
use dota2_analysis.Base.{
  Bool, true, false, List, [], ◌∷◌, ◌≡◌, Option, none, some, Map, lookup, insert,
}
use dota2_analysis.Base.Text.{Text, Text-discrete}

pub record Seen : Type 0 where
  pub seen : Map Text (Unit {0})

unfoldable pub new : Seen
new = record { seen = [] }

unfoldable pub is_seen : Text → Seen → Bool
is_seen key s = elim (lookup Text-discrete key s.seen) [ none ↦ false | some _ ↦ true ]

-- Whether the key had been seen, and the set after the call.
unfoldable pub mark_seen : Text → Seen → Bool × Seen
unfolding is_seen
mark_seen key s = elim (is_seen key s) [
  | true ↦ (true, s)
  | false ↦ (false, record { seen = insert Text-discrete key tt s.seen })
]

-- The loop of `CheckBatch`, over the result built so far.
unfoldable pub check_from : List Text → Seen → Map Text Bool → Map Text Bool
unfolding is_seen
check_from [] s result = result
check_from (k ∷ keys) s result = check_from keys s (insert Text-discrete k (is_seen k s) result)

unfoldable pub check_batch : List Text → Seen → Map Text Bool
unfolding check_from
check_batch keys s = check_from keys s []
