-- ===== src/Draft/Phases/Naming.antt =====
-- The phase names of the parser against those of the derived phase table.
use mathlib.Core.Path.{ap₂}
use dota2_analysis.Base.{
  ℕ, ◌+◌, ◌%◌, ◌≡◌, refl, ap, ◌∙◌, Bool, true, false, not, List, [], ◌∷◌, map, arith, if◌then◌else◌,
  bool_eq, get_elem?, some,
}
use dota2_analysis.Base.Text.{codes, decimal}
use dota2_analysis.Draft.Patterns.{PickBan, is_pick_seq}
use dota2_analysis.Draft.Phases.{
  phase_name, table_phase_name, assign_from, assign_phases, name_phases, phase_names, derive_from,
  derive_phase_table, names,
}

table_phase_name-phase_name : (c : ℕ) (b : Bool) → table_phase_name c (not b) ≡ phase_name c b
unfolding table_phase_name phase_name
table_phase_name-phase_name c true = refl
table_phase_name-phase_name c false = refl

abbrev pub shift : ℕ → List ℕ → List ℕ
shift k = map (λ c. c + k)

names-derive_from :
    (k slot : ℕ) (prev : Bool) (c c' : ℕ) (pbs : List PickBan)
    → c' ≡ c + k
    → names (derive_from slot prev c' (is_pick_seq pbs))
      ≡ name_phases (shift k (assign_from prev c pbs)) pbs
unfolding derive_from name_phases assign_from
names-derive_from k slot prev c c' [] e = refl
names-derive_from k slot prev c c' (pb ∷ pbs) e =
    let n = if bool_eq pb.is_pick prev then c else c + 1 in
    let n' = if bool_eq pb.is_pick prev then c' else c' + 1 in
    let e' : n' ≡ n + k = ground arith in
    ap₂ ◌∷◌ (table_phase_name-phase_name n' pb.is_pick ∙ ap (λ c. phase_name c pb.is_pick) e')
      (names-derive_from k (slot + 1) pb.is_pick n n' pbs e')

-- The derived table names every entry as the parser does, except that in a draft that starts with
-- a pick each phase number is one higher.
pub names-derive_phase_table :
    (pb : PickBan) (pbs : List PickBan)
    → names (derive_phase_table (is_pick_seq (pb ∷ pbs)))
      ≡ name_phases (shift (if pb.is_pick then 1 else 0) (assign_phases (pb ∷ pbs))) (pb ∷ pbs)
unfolding derive_phase_table assign_phases name_phases
names-derive_phase_table pb pbs =
    let k = if pb.is_pick then 1 else 0 in
    ap₂ ◌∷◌
      (table_phase_name-phase_name k pb.is_pick ∙ ap (λ c. phase_name c pb.is_pick) (omega arith))
      (names-derive_from k 1 pb.is_pick 0 k pbs (omega arith))

shift-zero : (cs : List ℕ) → shift 0 cs ≡ cs
shift-zero [] = refl
shift-zero (c ∷ cs) = ap₂ ◌∷◌ (omega arith) (shift-zero cs)

-- In a draft that starts with a ban, the derived table and the parser give the same names.
pub names-derive_of_ban_first :
    (pb : PickBan) (pbs : List PickBan)
    → pb.is_pick ≡ false
    → names (derive_phase_table (is_pick_seq (pb ∷ pbs))) ≡ phase_names (pb ∷ pbs)
unfolding phase_names
names-derive_of_ban_first pb pbs h =
    names-derive_phase_table pb pbs
    ∙ ap (λ cs. name_phases cs (pb ∷ pbs))
        (ap (λ b. shift (if b then 1 else 0) (assign_phases (pb ∷ pbs))) h
          ∙ shift-zero (assign_phases (pb ∷ pbs)))

-- In a draft whose first pick is followed by a ban they do not: the derived table calls the ban
-- "ban_2" where the parser calls it "ban_1".
pub names-derive_of_pick_first :
    (pb pb' : PickBan) (pbs : List PickBan)
    → pb.is_pick ≡ true
    → pb'.is_pick ≡ false
    → (get_elem? (names (derive_phase_table (is_pick_seq (pb ∷ pb' ∷ pbs)))) 1
        ≡ some (codes "ban_2"))
      × (get_elem? (phase_names (pb ∷ pb' ∷ pbs)) 1 ≡ some (codes "ban_1"))
unfolding derive_phase_table phase_names assign_phases name_phases table_phase_name phase_name
    decimal
names-derive_of_pick_first pb pb' pbs h h' = (rw (h, h', derive_phase_table), rw (h, h'))

-- A phase number is even exactly when the entry is of the kind of the first one.
abbrev pub Parity : Bool → List ℕ → List PickBan → Type 0
Parity first [] [] = Unit {0}
Parity first [] (pb ∷ pbs) = ⊥
Parity first (c ∷ cs) [] = ⊥
Parity first (c ∷ cs) (pb ∷ pbs) =
    (c % 2 ≡ (if bool_eq pb.is_pick first then 0 else 1)) × Parity first cs pbs

assign_from-Parity :
    (first prev : Bool) (c : ℕ) (pbs : List PickBan)
    → c % 2 ≡ (if bool_eq prev first then 0 else 1)
    → Parity first (assign_from prev c pbs) pbs
unfolding assign_from
assign_from-Parity first prev c [] h = tt
assign_from-Parity first prev c (pb ∷ pbs) h =
    let n = if bool_eq pb.is_pick prev then c else c + 1 in
    let h' : n % 2 ≡ (if bool_eq pb.is_pick first then 0 else 1) = ground arith in
    (h', assign_from-Parity first pb.is_pick n pbs h')

-- Phases alternate between bans and picks: an entry has an even phase number exactly when it is a
-- pick or ban like the first entry of the draft.
pub assign_phases-Parity :
    (pb : PickBan) (pbs : List PickBan) → Parity pb.is_pick (assign_phases (pb ∷ pbs)) (pb ∷ pbs)
unfolding assign_phases
assign_phases-Parity pb pbs =
    (ground arith, assign_from-Parity pb.is_pick pb.is_pick 0 pbs (ground arith))
