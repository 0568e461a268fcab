-- ===== src/Draft/Patterns/Era.antt =====
-- Which era `DetectDraftEra` finds for a draft that `ValidateDraft` accepts.
use Prim.Native.String.{String}
use mathlib.Core.List.{Memᴰ}
use text.Mathlib.Text.{◌==◌ as str_eq}
use dota2_analysis.Base.{
  ℕ, ◌+◌, ◌-◌, ◌≤◌, ◌<◌, ◌≡◌, refl, sym, ap, ◌⊎◌, inl, inr, ◌↔◌, ◌≢◌, Bool, true, false, List, [],
  ◌∷◌, none, some, arith, length, length-map, All, All-mem, ◌∙◌, Bool-cases, Option-cases, ltb,
  if◌then◌else◌,
}
use dota2_analysis.Draft.Patterns.{
  PickBan, is_pick_seq, validate_draft, is_subsequence_removes_only_bans, bool_slices_equal,
  exact_era, best_era, detect_draft_era, ordered_era_patterns,
}
use dota2_analysis.Draft.Patterns.Matching.{Declined, picks, is_subsequence-Declined}
use dota2_analysis.Draft.Patterns.Validation.{picks-is_pick_seq, FitsPattern, validate_draft_iff}

abbrev Eras : Type 0
Eras = List (String × List Bool)

-- No era of the list that fits the sequence has a smaller gap.
abbrev NoneCloser : List Bool → ℕ → Eras → Type 0
NoneCloser seq gap eras =
    All (λ e. is_subsequence_removes_only_bans seq e.1 ≡ true → gap ≤ length e.1 - length seq) eras

abbrev Kept : List Bool → String → ℕ → Eras → Type 0
Kept seq best gap eras = (best_era seq best gap eras ≡ best) × NoneCloser seq gap eras

record Found (seq : List Bool) (name : String) (gap : ℕ) (eras : Eras) : Type 0 where
  pattern_of : List Bool
  member : Memᴰ (name, pattern_of) eras
  fits : is_subsequence_removes_only_bans seq pattern_of ≡ true
  closer : length pattern_of - length seq < gap
  closest : NoneCloser seq (length pattern_of - length seq) eras

-- What the rest of the loop yields after an era that does not replace the best one.
skip_era :
    (seq : List Bool) (best : String) (gap : ℕ) (era : String × List Bool) (eras : Eras)
    (r : String)
    → (is_subsequence_removes_only_bans seq era.1 ≡ true → gap ≤ length era.1 - length seq)
    → ((r ≡ best) × NoneCloser seq gap eras) ⊎ Found seq r gap eras
    → ((r ≡ best) × NoneCloser seq gap (era ∷ eras)) ⊎ Found seq r gap (era ∷ eras)
skip_era seq best gap era eras r far (inl (e, c)) = inl (e, (far, c))
skip_era seq best gap era eras r far (inr f) = inr (record {
  pattern_of = f.pattern_of;
  member = Memᴰ.tail f.member;
  fits = f.fits;
  closer = f.closer;
  closest = (λ h. omega (arith, far h, f.closer), f.closest);
})

-- And after one that does.
choose_era :
    (seq : List Bool) (gap : ℕ) (name : String) (p : List Bool) (eras : Eras) (r : String)
    → is_subsequence_removes_only_bans seq p ≡ true
    → length p - length seq < gap
    → ((r ≡ name) × NoneCloser seq (length p - length seq) eras)
      ⊎ Found seq r (length p - length seq) eras
    → Found seq r gap ((name, p) ∷ eras)
choose_era seq gap name p eras r hit near (inl (e, c)) = record {
  pattern_of = p;
  member = Memᴰ.head (ap (λ n. (n, p)) e);
  fits = hit;
  closer = near;
  closest = (λ _. omega arith, c);
}
choose_era seq gap name p eras r hit near (inr f) = record {
  pattern_of = f.pattern_of;
  member = Memᴰ.tail f.member;
  fits = f.fits;
  closer = omega (arith, f.closer);
  closest = (λ _. omega (arith, f.closer), f.closest);
}

abbrev better : List Bool → ℕ → List Bool → Bool
better seq gap p =
    if is_subsequence_removes_only_bans seq p then ltb (length p - length seq) gap else false

best_era_cases :
    (seq : List Bool) (best : String) (gap : ℕ) (eras : Eras)
    → Kept seq best gap eras ⊎ Found seq (best_era seq best gap eras) gap eras
unfolding best_era
best_era_cases seq best gap [] = inl (refl, tt)
best_era_cases seq best gap ((name, p) ∷ eras) =
    round (better seq gap p) refl (best_era_cases seq best gap eras)
      (best_era_cases seq name (length p - length seq) eras)
  where
    round :
        (b : Bool)
        → better seq gap p ≡ b
        → Kept seq best gap eras ⊎ Found seq (best_era seq best gap eras) gap eras
        → Kept seq name (length p - length seq) eras
          ⊎ Found seq (best_era seq name (length p - length seq) eras) (length p - length seq) eras
        → let r =
            best_era seq
              (if b then name else best)
              (if b then length p - length seq else gap)
              eras in
          ((r ≡ best) × NoneCloser seq gap ((name, p) ∷ eras)) ⊎ Found seq r gap ((name, p) ∷ eras)
    round true e old new = inr (choose_era seq gap name p eras _ (ground arith) (ground arith) new)
    round false e old new = skip_era seq best gap (name, p) eras _ (λ h. ground arith) old

pub bool_slices_equal-eq : (as' bs : List Bool) → bool_slices_equal as' bs ≡ true → as' ≡ bs
unfolding bool_slices_equal
bool_slices_equal-eq [] [] h = refl
bool_slices_equal-eq [] (b ∷ bs) h = cc
bool_slices_equal-eq (a ∷ as') [] h = cc
bool_slices_equal-eq (a ∷ as') (b ∷ bs) h = ground (arith, bool_slices_equal-eq as' bs)

exact_era_some :
    (seq : List Bool) (eras : Eras) {name : String}
    → exact_era seq eras ≡ some name
    → Memᴰ (name, seq) eras
unfolding exact_era
exact_era_some seq [] h = cc
exact_era_some seq ((n, p) ∷ eras) {name} h = elim (Bool-cases (bool_slices_equal seq p)) [
  | inl hit ↦ Memᴰ.head (ground (arith, bool_slices_equal-eq seq p hit))
  | inr miss ↦ Memᴰ.tail (exact_era_some seq eras (ground arith))
]

-- What an era owes to a draft: the name stands in the table with a pattern that the draft follows
-- but for declined bans, and no other pattern that it follows has fewer of them.
pub record EraOf (seq : List Bool) (name : String) : Type 0 where
  pub pattern_of : List Bool
  pub listed : Memᴰ (name, pattern_of) ordered_era_patterns
  pub follows : Declined seq pattern_of
  pub closest :
      All
        (λ e. Declined seq e.1 → length pattern_of - length seq ≤ length e.1 - length seq)
        ordered_era_patterns

Declined-refl : (bs : List Bool) → Declined bs bs
Declined-refl [] = Declined.done
Declined-refl (b ∷ bs) = Declined.kept (Declined-refl bs)

-- What the table's entries have in common.
IsEntry : String × List Bool → Type 0
IsEntry e = (picks e.1 ≡ 10) × (length e.1 ≤ 24) × (str_eq e.0 "" ≡ false)

IsEntry-table : All IsEntry ordered_era_patterns
unfolding IsEntry
IsEntry-table =
    ((refl, omega arith, refl), ((refl, omega arith, refl), ((refl, omega arith, refl), tt)))

module _ (seq : List Bool) (long : 16 ≤ length seq) (ten : picks seq ≡ 10) where
  ne_nil : seq ≢ []
  ne_nil e = omega (arith, ap length e)

  follows_iff :
      (p : List Bool)
      → picks p ≡ 10
      → (is_subsequence_removes_only_bans seq p ≡ true) ↔ Declined seq p
  follows_iff p h = is_subsequence-Declined seq p ne_nil (ten ∙ sym h)

  closest_of :
      (k : ℕ)
      → NoneCloser seq k ordered_era_patterns
      → All (λ e. Declined seq e.1 → k ≤ length e.1 - length seq) ordered_era_patterns
  closest_of k (a, (b, (c, _))) = (
    λ d. a ((follows_iff _ refl).1 d),
    (λ d. b ((follows_iff _ refl).1 d), (λ d. c ((follows_iff _ refl).1 d), tt)),
  )

  some_closer : FitsPattern seq → ¬ NoneCloser seq (length seq + 1) ordered_era_patterns
  some_closer fits none_closer = ground (arith, closest_of (length seq + 1) none_closer)

  best_era-EraOf :
      FitsPattern seq
      → let best = best_era seq "" (length seq + 1) ordered_era_patterns in
        (str_eq best "" ≡ false) × EraOf seq best
  unfolding IsEntry
  best_era-EraOf fits = elim (best_era_cases seq "" (length seq + 1) ordered_era_patterns) [
    | inl (_, c) ↦ absurd (some_closer fits c)
    | inr f ↦
        let entry = All-mem IsEntry ordered_era_patterns IsEntry-table f.member in
        (
          entry.2,
          record {
            pattern_of = f.pattern_of;
            listed = f.member;
            follows = (follows_iff f.pattern_of entry.0).0 f.fits;
            closest = closest_of _ f.closest;
          },
        )
  ]

-- A draft that passes validation has an era, never "unknown": a listed pattern that the draft
-- follows but for declined bans, with the fewest declined bans among the listed patterns.
pub detect_draft_era-EraOf :
    (pbs : List PickBan)
    → validate_draft pbs ≡ none
    → EraOf (is_pick_seq pbs) (detect_draft_era pbs)
unfolding detect_draft_era
detect_draft_era-EraOf pbs ok =
    let seq = is_pick_seq pbs in
    let valid = (validate_draft_iff pbs).0 ok in
    let best =
      best_era-EraOf seq (omega (arith, length-map (λ (pb : PickBan). pb.is_pick) pbs))
        (omega (arith, picks-is_pick_seq pbs)) valid.3 in
    elim (Option-cases (exact_era seq ordered_era_patterns)) [
      | inl missing ↦ rw (missing, detect_draft_era) (rw best.0 best.1)
      | inr (name, hit) ↦
          rw (hit, detect_draft_era)
            (record {
              pattern_of = seq;
              listed = exact_era_some seq ordered_era_patterns hit;
              follows = Declined-refl seq;
              closest = (λ _. omega arith, (λ _. omega arith, (λ _. omega arith, tt)));
            })
    ]
