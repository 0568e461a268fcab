-- ===== src/Draft/Phases.antt =====
-- Phases of a draft. go-ingestion/internal/worker/parser/decode_draft.go numbers and names them
-- (`AssignPhases`, `PhaseName`, `PhaseNames`); go-analysis/internal/domain/phase_table.go builds
-- tables of them (`DerivePhaseTable`, `phaseName`, `actingTeam`, `cmPhaseTableData`).
pub mod Naming
use dota2_analysis.Base.{
  ℕ, suc, ◌+◌, ◌/◌, ◌%◌, Bool, true, false, not, List, [], ◌∷◌, ◌++◌, map, Option, none, some, ◌==◌,
  if◌then◌else◌, bool_eq, length, get_elem?, ℤ, pos, negsuc,
}
use dota2_analysis.Base.Text.{Text, codes, decimal}
use dota2_analysis.Draft.Patterns.{PickBan}

-- `fmt.Sprintf("%s_%d", pickBan, phase/2+1)`, of `PhaseName` (parser).
unfoldable pub phase_name : ℕ → Bool → Text
phase_name phase is_pick =
    (if is_pick then codes "pick" else codes "ban") ++ (codes "_" ++ decimal (phase / 2 + 1))

-- The loop of `AssignPhases` after the entry `prev`, in the phase `current`.
unfoldable pub assign_from : Bool → ℕ → List PickBan → List ℕ
assign_from prev current [] = []
assign_from prev current (pb ∷ picks_bans) =
    let next = if bool_eq pb.is_pick prev then current else current + 1 in
    next ∷ assign_from pb.is_pick next picks_bans

unfoldable pub assign_phases : List PickBan → List ℕ
unfolding assign_from
assign_phases [] = []
assign_phases (pb ∷ picks_bans) = 0 ∷ assign_from pb.is_pick 0 picks_bans

-- The loop of `PhaseNames`: `phases` and `picks_bans` have the same length.
unfoldable pub name_phases : List ℕ → List PickBan → List Text
name_phases [] picks_bans = []
name_phases (phase ∷ phases) [] = []
name_phases (phase ∷ phases) (pb ∷ picks_bans) =
    phase_name phase pb.is_pick ∷ name_phases phases picks_bans

unfoldable pub phase_names : List PickBan → List Text
unfolding assign_phases name_phases
phase_names picks_bans = name_phases (assign_phases picks_bans) picks_bans

-- go-analysis/internal/domain/draft.go
pub data DraftTeam : Type 0 where
  radiant dire : DraftTeam

pub record Phase : Type 0 where
  pub name : Text
  pub is_ban : Bool
  pub acting_team : DraftTeam

-- `Phase{}`
abbrev pub zero_phase : Phase
zero_phase = record { name = []; is_ban = false; acting_team = radiant }

-- `At` of a `phaseTable`; `none` is the result `(Phase{}, false)`.
unfoldable pub at : List Phase → ℤ → Option Phase
at phases (pos slot) = get_elem? phases slot
at phases (negsuc slot) = none

-- `phaseName`
unfoldable pub table_phase_name : ℕ → Bool → Text
table_phase_name phase is_ban =
    (if not is_ban then codes "pick" else codes "ban") ++ (codes "_" ++ decimal (phase / 2 + 1))

unfoldable pub acting_team_of : ℕ → DraftTeam
acting_team_of slot = if slot % 2 == 0 then radiant else dire

abbrev pub table_entry : ℕ → ℕ → Bool → Phase
table_entry slot current is_pick = record {
  name = table_phase_name current (not is_pick);
  is_ban = not is_pick;
  acting_team = acting_team_of slot;
}

-- The loop of `DerivePhaseTable` from the index `slot` on.
unfoldable pub derive_from : ℕ → Bool → ℕ → List Bool → List Phase
derive_from slot prev current [] = []
derive_from slot prev current (b ∷ is_pick) =
    let next = if bool_eq b prev then current else current + 1 in
    table_entry slot next b ∷ derive_from (slot + 1) b next is_pick

unfoldable pub derive_phase_table : List Bool → List Phase
unfolding derive_from
derive_phase_table [] = []
derive_phase_table (b ∷ is_pick) =
    let current = if b then 1 else 0 in table_entry 0 current b ∷ derive_from 1 b current is_pick

abbrev pub names : List Phase → List Text
names = map (λ p. p.name)

abbrev entry : Text → Bool → DraftTeam → Phase
entry name is_ban acting_team = record { name = name; is_ban = is_ban; acting_team = acting_team }

-- `cmPhaseTableData`, which `CMPhaseTable` returns as a table.
unfoldable pub cm_phase_table : List Phase
cm_phase_table =
    entry (codes "ban_1") true radiant
    ∷ entry (codes "ban_1") true dire
    ∷ entry (codes "ban_2") true radiant
    ∷ entry (codes "ban_2") true dire
    ∷ entry (codes "ban_3") true radiant
    ∷ entry (codes "ban_3") true dire
    ∷ entry (codes "ban_4") true radiant
    ∷ entry (codes "pick_1") false dire
    ∷ entry (codes "pick_1") false radiant
    ∷ entry (codes "ban_5") true dire
    ∷ entry (codes "ban_5") true radiant
    ∷ entry (codes "ban_6") true dire
    ∷ entry (codes "pick_2") false radiant
    ∷ entry (codes "pick_2") false dire
    ∷ entry (codes "pick_3") false radiant
    ∷ entry (codes "pick_3") false dire
    ∷ entry (codes "pick_4") false radiant
    ∷ entry (codes "pick_4") false dire
    ∷ entry (codes "ban_7") true radiant
    ∷ entry (codes "ban_7") true dire
    ∷ entry (codes "ban_8") true radiant
    ∷ entry (codes "ban_8") true dire
    ∷ entry (codes "pick_5") false radiant
    ∷ entry (codes "pick_5") false dire
    ∷ []
