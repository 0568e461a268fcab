-- ===== src/Tests/Payload.antt =====
-- The stores of raw data and of seen keys: go-ingestion/internal/payload/inmem and dedup/inmem.
use dota2_analysis.Base.{◌≡◌, refl, [], ◌∷◌, some, lookup, ℕ_discrete}
use dota2_analysis.Base.Text.{Text, Text-discrete, codes}
use dota2_analysis.Payload.{Store}
use dota2_analysis.Dedup.{Seen}

abbrev key : Text
key = codes "a"

abbrev other_key : Text
other_key = codes "bc"

abbrev stored : Store
stored = record { m = (key, record { content = 1 ∷ []; expires_at = some 50 }) ∷ [] }

stored_entry :
    lookup Text-discrete key stored.m ≡ some (record { content = 1 ∷ []; expires_at = some 50 })
unfolding lookup Text-discrete ℕ_discrete
stored_entry = refl

abbrev seen_once : Seen
seen_once = record { seen = (key, tt) ∷ [] }
