-- ===== src/Ingester/Marked.antt =====
-- The matches that `Ingest` marks as seen, against those that the database has.
use dota2_analysis.Base.{
  ℕ, ◌≡◌, ◌≢◌, refl, sym, ap, subst, ◌∙◌, ◌⊎◌, inl, inr, Bool, true, false, List, [], ◌∷◌, Option,
  none, some, if_neg, ℕ_discrete, Bool-cases,
}
use dota2_analysis.Base.Text.{Text-discrete, decimal, decimal-injective}
use dota2_analysis.Dedup.{Seen, is_seen}
use dota2_analysis.Dedup.Marks.{mark_seen-is_seen}
use dota2_analysis.Ingester.{
  GoError, MatchWriter, State, mark, on_answer, ingest, is_duplicate_constraint,
}

abbrev pub marked : Option Seen → ℕ → Bool
marked d id = elim d [ none ↦ false | some s ↦ is_seen (decimal id) s ]

on_answer_cases :
    (w : MatchWriter) (m : w.Match) (answer : Option GoError) (s : State w)
    → ((on_answer w m answer s).1.repo ≡ s.repo)
      × (((answer ≡ none) × ((on_answer w m answer s).1.dedup ≡ mark w (w.match_id m) s.dedup))
          ⊎ ((on_answer w m answer s).1.dedup ≡ s.dedup))
unfolding on_answer
on_answer_cases w m none s = (refl, inl (refl, refl))
on_answer_cases w m (some e) s = elim (Bool-cases (is_duplicate_constraint (some e))) [
  | inl again ↦ rw (again, on_answer) (refl, inr refl)
  | inr failed ↦ rw (failed, on_answer) (refl, inr refl)
]

abbrev pub ingest_all : (w : MatchWriter) → List w.Match → State w → State w
ingest_all w [] s = s
ingest_all w (m ∷ ms) s = ingest_all w ms (ingest w m s).1

-- The database stores what it accepts, and keeps what it has stored.
module _ (w : MatchWriter)
    (stores : (m : w.Match) (r : w.Repo)
      → (w.ingest_match m r).0 ≡ none
      → w.IsStored (w.ingest_match m r).1 (w.match_id m))
    (keeps : (m : w.Match) (r : w.Repo) (id : ℕ)
      → w.IsStored r id
      → w.IsStored (w.ingest_match m r).1 id) where
  marked-mark : (d : Option Seen) (n id : ℕ) → n ≢ id → marked (mark w n d) id ≡ marked d id
  unfolding mark
  marked-mark none n id differ = refl
  marked-mark (some s) n id differ =
      (mark_seen-is_seen (decimal n) (decimal id) s).1
      ∙ if_neg (Text-discrete (decimal n) (decimal id)) (λ e. differ (decimal-injective n id e)) _ _

  ingest_sound :
      (m : w.Match) (s : State w)
      → ((id : ℕ) → marked s.dedup id ≡ true → w.IsStored s.repo id)
      → (id : ℕ) → marked (ingest w m s).1.dedup id ≡ true
      → w.IsStored (ingest w m s).1.repo id
  unfolding ingest
  ingest_sound m s sound id h =
      subst (λ r. w.IsStored r id) (sym repo)
        (elim dedup [
          | inr same ↦ older (sym (ap (λ d. marked d id) same) ∙ h)
          | inl (accepted, now) ↦ elim (ℕ_discrete (w.match_id m) id) [
            | yes this ↦
                subst (λ i. w.IsStored (w.ingest_match m s.repo).1 i) this
                  (stores m s.repo accepted)
            | no other ↦ older (
                sym (marked-mark s.dedup (w.match_id m) id other)
                ∙ sym (ap (λ d. marked d id) now)
                ∙ h)
          ]
        ])
    where
      called : State w
      called = record s { repo = (w.ingest_match m s.repo).1 }

      repo : (ingest w m s).1.repo ≡ (w.ingest_match m s.repo).1
      repo = (on_answer_cases w m (w.ingest_match m s.repo).0 called).0

      dedup :
          (((w.ingest_match m s.repo).0 ≡ none)
            × ((ingest w m s).1.dedup ≡ mark w (w.match_id m) s.dedup))
          ⊎ ((ingest w m s).1.dedup ≡ s.dedup)
      dedup = (on_answer_cases w m (w.ingest_match m s.repo).0 called).1

      older : marked s.dedup id ≡ true → w.IsStored (w.ingest_match m s.repo).1 id
      older k = keeps m s.repo id (sound id k)

  -- For a database that stores what it accepts and keeps what it has stored: whatever matches are
  -- ingested and whatever it answers, a match is marked as seen only if the database has it, when
  -- that is so at the start.
  pub ingest_all_sound :
      (ms : List w.Match) (s : State w)
      → ((id : ℕ) → marked s.dedup id ≡ true → w.IsStored s.repo id)
      → (id : ℕ) → marked (ingest_all w ms s).dedup id ≡ true
      → w.IsStored (ingest_all w ms s).repo id
  ingest_all_sound [] s sound id h = sound id h
  ingest_all_sound (m ∷ ms) s sound id h =
      ingest_all_sound ms (ingest w m s).1 (ingest_sound m s sound) id h
