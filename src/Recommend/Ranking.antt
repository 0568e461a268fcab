-- ===== src/Recommend/Ranking.antt =====
-- The order and the heroes of the recommendations.
use mathlib.Core.List.{Perm}
use mathlib.Core.List.Perm
use dota2_analysis.Base.{
  ℕ, ◌+◌, ◌≡◌, refl, ap, subst, true, false, ◌||◌, inl, inr, List, [], ◌∷◌, map, ltb, ◌==◌,
  if◌then◌else◌, length, take, All, All-mono, Map, Bool-cases,
}
use dota2_analysis.Recommend.{
  Float, Score, Ensemble, Service, Recommendation, blend, combine, insert_score, sort_scores,
  recommend_from, value_map, score_value, rank_scores, vectors_by_hero,
}

module _ (fl : Float) where
  -- No score is greater than one before it.
  abbrev pub IsDescending : List (Score fl.F) → Type 0
  IsDescending [] = Unit {0}
  IsDescending (s ∷ scores) =
      All (λ (t : Score fl.F). fl.greater t.value s.value ≡ false) scores × IsDescending scores

  abbrev pub heroes : List (Score fl.F) → List ℕ
  heroes = map (λ t. t.hero)

  perm-insert_score :
      (s : Score fl.F) (ts : List (Score fl.F)) → Perm (s ∷ ts) (insert_score fl s ts)
  unfolding insert_score
  perm-insert_score s [] = Perm.refl (s ∷ [])
  perm-insert_score s (t ∷ ts) = elim (Bool-cases (fl.greater t.value s.value)) [
    | inl higher ↦
        rw (higher, insert_score)
          (Perm.trans (Perm.swap t s ts) (Perm.cons t (perm-insert_score s ts)))
    | inr not_higher ↦ rw (not_higher, insert_score) (Perm.refl (s ∷ t ∷ ts))
  ]

  pub perm-sort_scores : (ts : List (Score fl.F)) → Perm ts (sort_scores fl ts)
  unfolding sort_scores
  perm-sort_scores [] = Perm.refl []
  perm-sort_scores (s ∷ ts) =
      Perm.trans (Perm.cons s (perm-sort_scores ts)) (perm-insert_score s (sort_scores fl ts))

  heroes-blend :
      (e : Ensemble fl.F) (m : Map ℕ fl.F) (ts : List (Score fl.F))
      → heroes (map (blend fl e m) ts) ≡ heroes ts
  unfolding blend
  heroes-blend e m [] = refl
  heroes-blend e m (t ∷ ts) = ap (◌∷◌ t.hero) (heroes-blend e m ts)

  pub heroes-combine :
      (e : Ensemble fl.F) (imitation values : List (Score fl.F))
      → heroes (combine fl e imitation values) ≡ heroes imitation
  unfolding combine
  heroes-combine e imitation values =
      elim (Bool-cases (fl.is_zero e.value_weight || length values == 0)) [
        | inl alone ↦ rw (alone, combine) refl
        | inr both ↦ rw (both, combine) (heroes-blend e (value_map fl values []) imitation)
      ]

-- `greater` orders the values that occur, as `>` does on numbers other than NaN.
module _ (fl : Float) (asymmetric : (a b : fl.F) → fl.greater a b ≡ true → fl.greater b a ≡ false)
    (co_transitive : (a b c : fl.F)
      → fl.greater b a ≡ false
      → fl.greater c b ≡ false
      → fl.greater c a ≡ false) where
  insert_score_below :
      (v : fl.F) (s : Score fl.F) (ts : List (Score fl.F))
      → fl.greater s.value v ≡ false
      → All (λ (t : Score fl.F). fl.greater t.value v ≡ false) ts
      → All (λ (t : Score fl.F). fl.greater t.value v ≡ false) (insert_score fl s ts)
  unfolding insert_score
  insert_score_below v s [] h k = (h, tt)
  insert_score_below v s (t ∷ ts) h k = elim (Bool-cases (fl.greater t.value s.value)) [
    | inl higher ↦ rw (higher, insert_score) (k.0, insert_score_below v s ts h k.1)
    | inr not_higher ↦ rw (not_higher, insert_score) (h, k)
  ]

  insert_score-IsDescending :
      (s : Score fl.F) (ts : List (Score fl.F))
      → IsDescending fl ts
      → IsDescending fl (insert_score fl s ts)
  unfolding insert_score
  insert_score-IsDescending s [] d = (tt, tt)
  insert_score-IsDescending s (t ∷ ts) d = elim (Bool-cases (fl.greater t.value s.value)) [
    | inl higher ↦
        rw (higher, insert_score)
          (
            insert_score_below t.value s ts (asymmetric t.value s.value higher) d.0,
            insert_score-IsDescending s ts d.1,
          )
    | inr not_higher ↦
        rw (not_higher, insert_score)
          (
            (
              not_higher,
              All-mono _ _ ts (λ x h. co_transitive s.value t.value x.value not_higher h) d.0,
            ),
            d,
          )
  ]

  sort_scores-IsDescending : (ts : List (Score fl.F)) → IsDescending fl (sort_scores fl ts)
  unfolding sort_scores
  sort_scores-IsDescending [] = tt
  sort_scores-IsDescending (s ∷ ts) =
      insert_score-IsDescending s (sort_scores fl ts) (sort_scores-IsDescending ts)

-- The recommendations are those of the scores, with ranks that count from `rank`.
abbrev pub IsRanked : (fl : Float) → ℕ → List (Score fl.F) → List (Recommendation fl.F) → Type 0
IsRanked fl rank [] [] = Unit {0}
IsRanked fl rank [] (r ∷ rs) = ⊥
IsRanked fl rank (t ∷ ts) [] = ⊥
IsRanked fl rank (t ∷ ts) (r ∷ rs) =
    (r.hero ≡ t.hero) × (r.score ≡ t.value) × (r.rank ≡ rank) × IsRanked fl (rank + 1) ts rs

recommend_from-IsRanked :
    (s : Service) (by_hero : Map ℕ s.Vector) (rank : ℕ) (ts : List (Score s.float.F))
    → IsRanked s.float rank ts (recommend_from s by_hero rank ts)
unfolding recommend_from
recommend_from-IsRanked s by_hero rank [] = tt
recommend_from-IsRanked s by_hero rank (t ∷ ts) =
    (refl, refl, refl, recommend_from-IsRanked s by_hero (rank + 1) ts)

module _ (s : Service)
    (asymmetric : (a b : s.float.F) → s.float.greater a b ≡ true → s.float.greater b a ≡ false)
    (co_transitive : (a b c : s.float.F)
      → s.float.greater b a ≡ false
      → s.float.greater c b ≡ false
      → s.float.greater c a ≡ false) where
  -- For values that `>` orders: the recommendations are the first `k` scores (all, if there are fewer
  -- or `k` is not positive) of a list in descending order, ranked from 1, whose heroes are those
  -- that the imitation model has scored, each as often; so it is with and without a value model.
  pub rank_scores-IsRanked :
      (k : ℕ) (vectors : List s.Vector) (imitation : List (Score s.float.F))
      → (final : List (Score s.float.F)) × Perm (heroes s.float imitation) (heroes s.float final)
        × IsDescending s.float final
        × IsRanked s.float 1
            (take (if k == 0 || ltb (length final) k then length final else k) final)
            (rank_scores s k vectors imitation).recommendations
  unfolding rank_scores
  rank_scores-IsRanked k vectors imitation = (
    sort_scores s.float combined,
    subst (λ l. Perm l (heroes s.float (sort_scores s.float combined)))
        (heroes-combine s.float s.ensemble imitation (score_value s vectors).0)
        (Perm.map _ (perm-sort_scores s.float combined)),
    sort_scores-IsDescending s.float asymmetric co_transitive combined,
    recommend_from-IsRanked s (vectors_by_hero s vectors []) 1 _,
  )
    where
      combined : List (Score s.float.F)
      combined = combine s.float s.ensemble imitation (score_value s vectors).0
