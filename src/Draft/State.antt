-- ===== src/Draft/State.antt =====
-- go-analysis/internal/domain/draft.go: the immutable snapshot of a draft. A `HeroCatalog` is the
-- list of hero ids in the order in which its `EachHero` visits them; ids are not negative.
pub mod Legal
pub mod Progress
use dota2_analysis.Base.{
  ℕ, Bool, true, false, not, ◌&&◌, List, [], ◌∷◌, Option, none, some, ◌==◌, if◌then◌else◌, length,
  ℤ, ge_ℕ, Map, insert, lookup, ℕ_discrete,
}
use dota2_analysis.Draft.Phases.{DraftTeam, Phase, at, zero_phase}

pub data Side : Type 0 where
  us them : Side

pub record TeamSlot : Type 0 where
  pub team_id : ℕ
  pub roster : List ℕ
  pub picks : List ℕ
  pub bans : List ℕ

pub record DraftState : Type 0 where
  pub patch : ℕ
  pub user_team : Side
  pub phases : List Phase
  pub ours : TeamSlot
  pub theirs : TeamSlot
  pub slot : ℤ
  pub drafted : Map ℕ Bool

-- `d.drafted[id]`: a missing key reads as false.
unfoldable pub is_drafted : Map ℕ Bool → ℕ → Bool
is_drafted drafted id = elim (lookup ℕ_discrete id drafted) [ some b ↦ b | none ↦ false ]

-- `for _, h := range heroes { ds.drafted[h] = true }`
unfoldable pub mark_drafted : List ℕ → Map ℕ Bool → Map ℕ Bool
mark_drafted [] drafted = drafted
mark_drafted (h ∷ heroes) drafted = mark_drafted heroes (insert ℕ_discrete h true drafted)

-- `ds.us` and `ds.them`, from the radiant and the dire side.
unfoldable pub perspective : Side → TeamSlot → TeamSlot → TeamSlot × TeamSlot
perspective us rad dir = (rad, dir)
perspective them rad dir = (dir, rad)

-- The arguments that come in pairs, radiant and dire, are two `TeamSlot`s here.
unfoldable pub new_draft_state : ℕ → Side → List Phase → TeamSlot → TeamSlot → ℤ → DraftState
unfolding perspective mark_drafted
new_draft_state patch user_team phases rad dir slot =
    let (ours, theirs) = perspective user_team rad dir in
    record {
      patch = patch;
      user_team = user_team;
      phases = phases;
      ours = ours;
      theirs = theirs;
      slot = slot;
      drafted =
          mark_drafted theirs.bans
            (mark_drafted ours.bans (mark_drafted theirs.picks (mark_drafted ours.picks [])));
    }

unfoldable pub phase : DraftState → Phase
unfolding at
phase d = elim (at d.phases d.slot) [ none ↦ zero_phase | some p ↦ p ]

unfoldable pub next_actor : DraftState → DraftTeam
unfolding phase
next_actor d = (phase d).acting_team

unfoldable pub is_ban_phase : DraftState → Bool
unfolding phase
is_ban_phase d = (phase d).is_ban

unfoldable pub is_draft_complete : DraftState → Bool
is_draft_complete d = ge_ℕ d.slot (length d.phases)

-- The callback of `LegalHeroes` on each hero of the catalog; it never stops the iteration.
unfoldable pub legal_from : Map ℕ Bool → List ℕ → List ℕ
legal_from drafted [] = []
legal_from drafted (id ∷ catalog) =
    let legal = legal_from drafted catalog in
    if not (id == 0) && not (is_drafted drafted id) then id ∷ legal else legal

unfoldable pub legal_heroes : DraftState → List ℕ → List ℕ
unfolding legal_from
legal_heroes d catalog = legal_from d.drafted catalog
