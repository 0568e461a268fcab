-- ===== src/Draft/Patterns/Matching.antt =====
-- The greedy scan of `isSubsequenceRemovesOnlyBans` against a relation that removes any bans.
use dota2_analysis.Base.{
  ℕ, suc, ◌≤◌, ◌≡◌, refl, ap, ◌↔◌, ◌≢◌, Bool, true, false, List, [], ◌∷◌, arith, length,
}
use dota2_analysis.Draft.Patterns.{subsequence_from, is_subsequence_removes_only_bans}

-- `Declined observed pattern`: some bans of the pattern were declined, the rest is as it stands.
pub data Declined : List Bool → List Bool → Type 0 where
  done : Declined [] []
  kept : {b : Bool} {os ps : List Bool} → Declined os ps → Declined (b ∷ os) (b ∷ ps)
  declined : {os ps : List Bool} → Declined os ps → Declined os (false ∷ ps)

abbrev pub picks : List Bool → ℕ
picks [] = 0
picks (true ∷ bs) = suc (picks bs)
picks (false ∷ bs) = picks bs

drop_ban : {os ps : List Bool} → Declined (false ∷ os) ps → Declined os ps
drop_ban (kept d) = declined d
drop_ban (declined d) = declined (drop_ban d)

pub Declined-picks : {os ps : List Bool} → Declined os ps → picks os ≡ picks ps
Declined-picks done = refl
Declined-picks (kept {b = true} d) = ap suc (Declined-picks d)
Declined-picks (kept {b = false} d) = Declined-picks d
Declined-picks (declined d) = Declined-picks d

pub Declined-length : {os ps : List Bool} → Declined os ps → length os ≤ length ps
Declined-length done = omega arith
Declined-length (kept d) = omega (arith, Declined-length d)
Declined-length (declined d) = omega (arith, Declined-length d)

-- Scanning greedily misses no way to remove bans.
subsequence_from_complete : (os ps : List Bool) → Declined os ps → subsequence_from os ps ≡ true
unfolding subsequence_from
subsequence_from_complete [] ps d = refl
subsequence_from_complete (o ∷ os) [] d = elim d [ ]
subsequence_from_complete (false ∷ os) (true ∷ ps) d = elim d [ ]
subsequence_from_complete (true ∷ os) (true ∷ ps) (kept d) = subsequence_from_complete os ps d
subsequence_from_complete (false ∷ os) (false ∷ ps) (kept d) = subsequence_from_complete os ps d
subsequence_from_complete (false ∷ os) (false ∷ ps) (declined d) =
    subsequence_from_complete os ps (drop_ban d)
subsequence_from_complete (true ∷ os) (false ∷ ps) (declined d) =
    subsequence_from_complete (true ∷ os) ps d

all-Declined : (ps : List Bool) → 0 ≡ picks ps → Declined [] ps
all-Declined [] h = done
all-Declined (true ∷ ps) h = absurd (omega arith)
all-Declined (false ∷ ps) h = declined (all-Declined ps h)

subsequence_from_sound :
    (os ps : List Bool) → subsequence_from os ps ≡ true → picks os ≡ picks ps → Declined os ps
unfolding subsequence_from
subsequence_from_sound [] ps e h = all-Declined ps h
subsequence_from_sound (o ∷ os) [] e h = cc
subsequence_from_sound (true ∷ os) (true ∷ ps) e h =
    kept (subsequence_from_sound os ps e (omega arith))
subsequence_from_sound (false ∷ os) (false ∷ ps) e h = kept (subsequence_from_sound os ps e h)
subsequence_from_sound (false ∷ os) (true ∷ ps) e h = cc
subsequence_from_sound (true ∷ os) (false ∷ ps) e h =
    declined (subsequence_from_sound (true ∷ os) ps e h)

-- For a draft with some entry and as many picks as the pattern, the scan accepts exactly the
-- sequences that arise from the pattern by removing bans.
pub is_subsequence-Declined :
    (os ps : List Bool)
    → os ≢ []
    → picks os ≡ picks ps
    → (is_subsequence_removes_only_bans os ps ≡ true) ↔ Declined os ps
unfolding is_subsequence_removes_only_bans
is_subsequence-Declined [] ps n h = absurd (n refl)
is_subsequence-Declined (o ∷ os) ps n h =
    (λ e. subsequence_from_sound (o ∷ os) ps e h, subsequence_from_complete (o ∷ os) ps)
