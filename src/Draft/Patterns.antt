-- ===== src/Draft/Patterns.antt =====
-- go-ingestion/internal/worker/parser/decode_draft.go: `ValidateDraft`, `DetectDraftEra` and the
-- matching of a draft against the known pick/ban sequences. An `error` is `Option DraftError`.
pub mod Matching
pub mod Validation
pub mod Era
use Prim.Native.String.{String}
use text.Mathlib.Text.{◌==◌ as str_eq}
use dota2_analysis.Base.{
  ℕ, suc, ◌+◌, ◌-◌, Bool, true, false, not, ◌||◌, List, [], ◌∷◌, map, Option, none, some, ltb, ◌==◌,
  if◌then◌else◌, bool_eq, length,
}

-- go-core/domain/match.go
pub record PickBan : Type 0 where
  pub order : ℕ
  pub is_pick : Bool
  pub hero_id : ℕ
  pub team : ℕ

pub data DraftError : Type 0 where
  bad_length bad_pick_count : ℕ → DraftError
  no_pattern : DraftError

abbrev pub pre_7_30 : List Bool
pre_7_30 =
    false ∷ false ∷ false ∷ false ∷ true ∷ true ∷ true ∷ true ∷ true ∷ true ∷ false ∷ false ∷ false
    ∷ false ∷ false ∷ false ∷ true ∷ true ∷ true ∷ true ∷ []

abbrev pub from_7_30_to_7_32 : List Bool
from_7_30_to_7_32 =
    false ∷ false ∷ false ∷ false ∷ true ∷ true ∷ true ∷ true ∷ false ∷ false ∷ false ∷ false
    ∷ false ∷ false ∷ true ∷ true ∷ true ∷ true ∷ false ∷ false ∷ false ∷ false ∷ true ∷ true ∷ []

abbrev pub from_7_33 : List Bool
from_7_33 =
    false ∷ false ∷ false ∷ false ∷ false ∷ false ∷ false ∷ true ∷ true ∷ false ∷ false ∷ false
    ∷ true ∷ true ∷ true ∷ true ∷ true ∷ true ∷ false ∷ false ∷ false ∷ false ∷ true ∷ true ∷ []

-- `cmDraftPatterns`. The source ranges over a map, in an order that changes: the search below
-- is an "or" over the patterns, so the order does not matter.
abbrev pub cm_draft_patterns : List (List Bool)
cm_draft_patterns = pre_7_30 ∷ from_7_30_to_7_32 ∷ from_7_33 ∷ []

-- The loop of `isSubsequenceRemovesOnlyBans`, over `observed[oi:]` and `pattern[pi:]`.
unfoldable pub subsequence_from : List Bool → List Bool → Bool
subsequence_from [] pattern = true
subsequence_from (o ∷ observed) [] = false
subsequence_from (o ∷ observed) (p ∷ pattern) = elim (bool_eq o p) [
  | true ↦ subsequence_from observed pattern
  | false ↦ elim p [ true ↦ false | false ↦ subsequence_from (o ∷ observed) pattern ]
]

unfoldable pub is_subsequence_removes_only_bans : List Bool → List Bool → Bool
unfolding subsequence_from
is_subsequence_removes_only_bans [] pattern = false
is_subsequence_removes_only_bans (o ∷ observed) pattern = subsequence_from (o ∷ observed) pattern

unfoldable pub matches_any : List (List Bool) → List Bool → Bool
matches_any [] observed = false
matches_any (p ∷ patterns) observed =
    is_subsequence_removes_only_bans observed p || matches_any patterns observed

unfoldable pub matches_any_pattern_allowing_declined_bans : List Bool → Bool
unfolding matches_any
matches_any_pattern_allowing_declined_bans observed = matches_any cm_draft_patterns observed

-- The loop that counts the picks of a draft.
abbrev pub count_picks : List PickBan → ℕ
count_picks [] = 0
count_picks (pb ∷ picks_bans) =
    if pb.is_pick then suc (count_picks picks_bans) else count_picks picks_bans

-- The loop that extracts the `is_pick` sequence.
abbrev pub is_pick_seq : List PickBan → List Bool
is_pick_seq = map (λ pb. pb.is_pick)

unfoldable pub validate_draft : List PickBan → Option DraftError
validate_draft picks_bans =
    let n = length picks_bans in
    let picks = count_picks picks_bans in
    if ltb n 16 || ltb 24 n
    then some (bad_length n)
    else if not (picks == 10)
    then some (bad_pick_count picks)
    else if not (matches_any_pattern_allowing_declined_bans (is_pick_seq picks_bans))
    then some no_pattern
    else none

-- `orderedEraPatterns`, most recent first.
abbrev pub ordered_era_patterns : List (String × List Bool)
ordered_era_patterns =
    ("7_33_plus", from_7_33) ∷ ("7_30_to_7_32", from_7_30_to_7_32) ∷ ("pre_7_30", pre_7_30) ∷ []

unfoldable pub bool_slices_equal : List Bool → List Bool → Bool
bool_slices_equal [] [] = true
bool_slices_equal [] (b ∷ bs) = false
bool_slices_equal (a ∷ as') [] = false
bool_slices_equal (a ∷ as') (b ∷ bs) = if bool_eq a b then bool_slices_equal as' bs else false

-- The first loop of `DetectDraftEra`: an exact match returns at once.
unfoldable pub exact_era : List Bool → List (String × List Bool) → Option String
exact_era seq [] = none
exact_era seq ((name, pattern) ∷ eras) =
    if bool_slices_equal seq pattern then some name else exact_era seq eras

-- The second loop, over `best` and `bestGap`. A pattern that passes the test is at least as long
-- as the draft, so the truncated difference is the source's.
unfoldable pub best_era : List Bool → String → ℕ → List (String × List Bool) → String
best_era seq best best_gap [] = best
best_era seq best best_gap ((name, pattern) ∷ eras) =
    let gap = length pattern - length seq in
    let better = if is_subsequence_removes_only_bans seq pattern then ltb gap best_gap else false in
    best_era seq (if better then name else best) (if better then gap else best_gap) eras

unfoldable pub detect_draft_era : List PickBan → String
unfolding exact_era best_era
detect_draft_era picks_bans =
    let seq = is_pick_seq picks_bans in
    elim (exact_era seq ordered_era_patterns) [
      | some name ↦ name
      | none ↦
          let best = best_era seq "" (length seq + 1) ordered_era_patterns in
          if str_eq best "" then "unknown" else best
    ]
