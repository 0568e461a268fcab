-- ===== src/Draft/State/Progress.antt =====
-- The slot of a draft against its phase table.
use dota2_analysis.Base.{
  ℕ, ◌≡◌, ◌⊎◌, inl, inr, true, false, some, arith, length, get_elem?_lt, get_elem?_ge, pos, dec_le,
}
use dota2_analysis.Draft.Phases.{at, zero_phase}
use dota2_analysis.Draft.State.{DraftState, phase, is_draft_complete}

-- A draft whose slot is not negative is complete, and its phase is then the zero phase, or it has
-- an entry of the table for its phase.
pub is_draft_complete_cases :
    (d : DraftState) (i : ℕ)
    → d.slot ≡ pos i
    → ((is_draft_complete d ≡ true) × (phase d ≡ zero_phase))
      ⊎ ((is_draft_complete d ≡ false) × (at d.phases (pos i) ≡ some (phase d)))
unfolding is_draft_complete phase at
is_draft_complete_cases d i h = elim (dec_le (length d.phases) i) [
  | yes ge ↦ inl (ground arith, ground (arith, get_elem?_ge d.phases i ge))
  | no lt ↦ inr (ground arith, ground (arith, get_elem?_lt d.phases i (omega arith)))
]
