-- ===== src/Tests/Draft.antt =====
-- Drafts: go-ingestion/internal/worker/parser/decode_draft.go, go-analysis/internal/domain.
use mathlib.Core.List.{Memᴰ}
use dota2_analysis.Base.{
  ℕ, ◌+◌, ◌%◌, ◌≤◌, ◌≡◌, refl, ◌≢◌, ◌↔◌, Bool, true, false, List, [], ◌∷◌, none, some, length, pos,
  lookup, insert, ℕ_discrete,
}
use dota2_analysis.Draft.Patterns.{
  PickBan, bad_length, is_pick_seq, count_picks, is_subsequence_removes_only_bans, validate_draft,
  detect_draft_era, bool_slices_equal, matches_any_pattern_allowing_declined_bans,
}
use dota2_analysis.Draft.Patterns.Matching.{picks}
use dota2_analysis.Draft.Patterns.Validation.{FitsPattern, validate_draft_iff}
use dota2_analysis.Draft.Patterns.Era.{EraOf, detect_draft_era-EraOf}
use dota2_analysis.Draft.Phases.{assign_phases, cm_phase_table}
use dota2_analysis.Draft.State.{
  them, TeamSlot, DraftState, new_draft_state, legal_heroes, is_drafted,
}
use dota2_analysis.Draft.State.Legal.{InDraft, legal_heroes_iff}

abbrev entry : ℕ → Bool → PickBan
entry n is_pick = record { order = n; is_pick = is_pick; hero_id = n + 1; team = n % 2 }

abbrev entries : ℕ → List Bool → List PickBan
entries n [] = []
entries n (b ∷ bs) = entry n b ∷ entries (n + 1) bs

-- A draft of the current pattern whose first ban was declined.
abbrev declined_draft : List PickBan
declined_draft = entries 0 (
    false ∷ false ∷ false ∷ false ∷ false ∷ false ∷ true ∷ true ∷ false ∷ false ∷ false ∷ true
    ∷ true ∷ true ∷ true ∷ true ∷ true ∷ false ∷ false ∷ false ∷ false ∷ true ∷ true ∷ [])

declined_draft_valid : validate_draft declined_draft ≡ none
unfolding validate_draft matches_any_pattern_allowing_declined_bans is_subsequence_removes_only_bans
declined_draft_valid = refl

declined_draft_era : detect_draft_era declined_draft ≡ "7_33_plus"
unfolding detect_draft_era bool_slices_equal is_subsequence_removes_only_bans
declined_draft_era = refl

short_draft_rejected : validate_draft (entries 0 (true ∷ false ∷ [])) ≡ some (bad_length 2)
unfolding validate_draft
short_draft_rejected = refl

validate_draft_iff_example : (validate_draft declined_draft ≡ none) ↔ (
    (16 ≤ length declined_draft)
    × (length declined_draft ≤ 24)
    × (count_picks declined_draft ≡ 10)
    × FitsPattern (is_pick_seq declined_draft))
validate_draft_iff_example = validate_draft_iff declined_draft

detect_draft_era-EraOf_example :
    EraOf (is_pick_seq declined_draft) (detect_draft_era declined_draft)
detect_draft_era-EraOf_example = detect_draft_era-EraOf declined_draft declined_draft_valid

one_pick_declined_ban : true ∷ [] ≢ []
one_pick_declined_ban e = cc

abbrev rest : List PickBan
rest = entries 1 (false ∷ true ∷ true ∷ false ∷ [])

assign_phases_run : assign_phases (entry 0 false ∷ rest) ≡ 0 ∷ 0 ∷ 1 ∷ 1 ∷ 2 ∷ []
unfolding assign_phases
assign_phases_run = refl

abbrev team : ℕ → List ℕ → List ℕ → TeamSlot
team id picks bans = record { team_id = id; roster = []; picks = picks; bans = bans }

abbrev ongoing : DraftState
ongoing =
    new_draft_state 60 them cm_phase_table (team 1 (5 ∷ []) (7 ∷ [])) (team 2 (9 ∷ []) []) (pos 9)

offered : legal_heroes ongoing (0 ∷ 5 ∷ 6 ∷ 7 ∷ 8 ∷ 9 ∷ []) ≡ 6 ∷ 8 ∷ []
unfolding legal_heroes new_draft_state is_drafted lookup insert ℕ_discrete
offered = refl

abbrev hero : ℕ
hero = 6

legal_heroes_iff_example : Memᴰ hero (legal_heroes ongoing (5 ∷ 6 ∷ [])) ↔ (
    Memᴰ hero (5 ∷ 6 ∷ [])
    × (hero ≢ 0)
    × ¬ InDraft (team 1 (5 ∷ []) (7 ∷ [])) (team 2 (9 ∷ []) []) hero)
legal_heroes_iff_example =
    legal_heroes_iff 60 them cm_phase_table (team 1 (5 ∷ []) (7 ∷ [])) (team 2 (9 ∷ []) []) (pos 9)
      (5 ∷ 6 ∷ []) hero

ongoing_slot : ongoing.slot ≡ pos 9
unfolding new_draft_state
ongoing_slot = refl
