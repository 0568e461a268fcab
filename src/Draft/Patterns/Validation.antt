-- ===== src/Draft/Patterns/Validation.antt =====
-- Which drafts `ValidateDraft` accepts.
use dota2_analysis.Base.{
  ◌≤◌, ◌≡◌, refl, ◌⊎◌, ◌↔◌, ◌≢◌, Bool, true, List, [], ◌∷◌, none, arith, length,
}
use dota2_analysis.Draft.Patterns.{
  PickBan, pre_7_30, from_7_30_to_7_32, from_7_33, count_picks, is_pick_seq, validate_draft,
  matches_any_pattern_allowing_declined_bans,
}
use dota2_analysis.Draft.Patterns.Matching.{Declined, picks, is_subsequence-Declined}

pub picks-is_pick_seq : (pbs : List PickBan) → picks (is_pick_seq pbs) ≡ count_picks pbs
picks-is_pick_seq [] = refl
picks-is_pick_seq (pb ∷ pbs) = ground (arith, picks-is_pick_seq pbs)

-- The sequence comes from a known pattern by declining bans.
abbrev pub FitsPattern : List Bool → Type 0
FitsPattern seq = Declined seq pre_7_30 ⊎ Declined seq from_7_30_to_7_32 ⊎ Declined seq from_7_33

pub matches_any-FitsPattern :
    (seq : List Bool)
    → seq ≢ []
    → picks seq ≡ 10
    → (matches_any_pattern_allowing_declined_bans seq ≡ true) ↔ FitsPattern seq
unfolding matches_any_pattern_allowing_declined_bans
matches_any-FitsPattern seq n h = ground (
  arith,
  is_subsequence-Declined seq pre_7_30 n h,
  is_subsequence-Declined seq from_7_30_to_7_32 n h,
  is_subsequence-Declined seq from_7_33 n h,
)

pub long-ne-nil : (pbs : List PickBan) → 16 ≤ length pbs → is_pick_seq pbs ≢ []
long-ne-nil [] h = absurd (omega arith)
long-ne-nil (pb ∷ pbs) h = λ e. cc

-- A draft is accepted exactly when it has 16 to 24 entries, ten picks, and its sequence of picks
-- and bans is one of the three known patterns with some bans declined.
pub validate_draft_iff :
    (pbs : List PickBan)
    → (validate_draft pbs ≡ none) ↔ (
        (16 ≤ length pbs)
        × (length pbs ≤ 24)
        × (count_picks pbs ≡ 10)
        × FitsPattern (is_pick_seq pbs))
unfolding validate_draft
validate_draft_iff pbs = (to, from)
  where
    fits :
        16 ≤ length pbs
        → count_picks pbs ≡ 10
        → (matches_any_pattern_allowing_declined_bans (is_pick_seq pbs) ≡ true)
          ↔ FitsPattern (is_pick_seq pbs)
    fits long ten =
        matches_any-FitsPattern (is_pick_seq pbs) (long-ne-nil pbs long)
          (omega (arith, picks-is_pick_seq pbs))

    to :
        validate_draft pbs ≡ none
        → (16 ≤ length pbs)
          × (length pbs ≤ 24)
          × (count_picks pbs ≡ 10)
          × FitsPattern (is_pick_seq pbs)
    to e =
        let long : 16 ≤ length pbs = ground arith in
        let ten : count_picks pbs ≡ 10 = ground arith in
        (long, ground arith, ten, (fits long ten).0 (ground arith))

    from :
        (16 ≤ length pbs)
          × (length pbs ≤ 24)
          × (count_picks pbs ≡ 10)
          × FitsPattern (is_pick_seq pbs)
        → validate_draft pbs ≡ none
    from h = ground (arith, (fits h.0 h.2).1 h.3)
