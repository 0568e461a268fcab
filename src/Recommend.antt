-- ===== src/Recommend.antt =====
-- go-analysis/internal/recommend: the pipeline of `Recommend` (recommender.go) from the legal heroes
-- of a draft to ranked recommendations, and the ensemble of two scores (ensemble.go).
pub mod Ranking
pub mod Legal
use dota2_analysis.Base.{
  ℕ, suc, ◌+◌, Bool, true, false, ◌||◌, ◌⊎◌, inl, inr, List, [], ◌∷◌, ◌++◌, map, Option, none, some,
  ltb, ◌==◌, if◌then◌else◌, length, take, Map, lookup, insert, ℕ_discrete,
}
use dota2_analysis.Base.Text.{Text, codes}
use dota2_analysis.Draft.State.{DraftState, legal_heroes}

-- float64, by the operations that the code uses.
pub record Float : Type 1 where
  pub F : Type 0
  pub add : F → F → F
  pub mul : F → F → F
  pub is_zero : F → Bool
  pub greater : F → F → Bool

-- go-analysis/internal/domain/score.go and result.go, over the numbers `F`.
pub record Score (F : Type 0) : Type 0 where
  pub hero : ℕ
  pub value : F

pub record Reason (F : Type 0) : Type 0 where
  pub factor : Text
  pub note : Text
  pub delta : F

pub record Recommendation (F : Type 0) : Type 0 where
  pub hero : ℕ
  pub name : Text
  pub score : F
  pub rank : ℕ
  pub reasons : List (Reason F)
  pub risks : List Text

pub record Outcome (F : Type 0) : Type 0 where
  pub recommendations : List (Recommendation F)
  pub used_value_model : Bool
  pub warnings : List Text

pub record Ensemble (F : Type 0) : Type 0 where
  pub imitation_weight : F
  pub value_weight : F

module _ (fl : Float) where
  -- The map from heroes to values; a later score of a hero replaces an earlier one.
  unfoldable pub value_map : List (Score fl.F) → Map ℕ fl.F → Map ℕ fl.F
  value_map [] m = m
  value_map (s ∷ scores) m = value_map scores (insert ℕ_discrete s.hero s.value m)

  unfoldable pub blend : Ensemble fl.F → Map ℕ fl.F → Score fl.F → Score fl.F
  blend e m s =
      let v : fl.F = elim (lookup ℕ_discrete s.hero m) [ none ↦ s.value | some v ↦ v ] in
      record {
        hero = s.hero;
        value = fl.add (fl.mul e.imitation_weight s.value) (fl.mul e.value_weight v);
      }

  unfoldable pub combine : Ensemble fl.F → List (Score fl.F) → List (Score fl.F) → List (Score fl.F)
  unfolding value_map blend
  combine e imitation value =
      if fl.is_zero e.value_weight || length value == 0
      then imitation
      else map (blend e (value_map value [])) imitation

  -- `sort.Slice` by descending value; scores of the same value may end up in any order.
  unfoldable pub insert_score : Score fl.F → List (Score fl.F) → List (Score fl.F)
  insert_score s [] = s ∷ []
  insert_score s (t ∷ scores) =
      let rest = insert_score s scores in
      if fl.greater t.value s.value then t ∷ rest else s ∷ t ∷ scores

  unfoldable pub sort_scores : List (Score fl.F) → List (Score fl.F)
  unfolding insert_score
  sort_scores [] = []
  sort_scores (s ∷ scores) = insert_score s (sort_scores scores)

  unfoldable pub reasons_from_risk_reasons : List (Reason fl.F) → List Text
  reasons_from_risk_reasons = map (λ r. r.factor ++ (codes ": " ++ r.note))

-- What a `Service` is made of. `Vector` stands for a feature vector; an error is its text.
pub record Service : Type 1 where
  pub float : Float
  pub Vector : Type 0
  pub hero_of : Vector → ℕ
  pub build : DraftState → List ℕ → Text ⊎ List Vector
  pub scorer : List Vector → Text ⊎ List (Score float.F)
  pub value_scorer : Option (List Vector → Text ⊎ List (Score float.F))
  pub explain : Option Vector → float.F → List (Reason float.F) × List (Reason float.F)
  pub hero_name : ℕ → Text
  pub ensemble : Ensemble float.F

module _ (s : Service) where
  -- The scores of the value model, and the warnings.
  unfoldable pub score_value : List s.Vector → List (Score s.float.F) × List Text
  score_value vectors = elim s.value_scorer [
    | none ↦ ([], [])
    | some f ↦ elim (f vectors) [
      | inl e ↦ ([], (codes "value model unavailable: " ++ e) ∷ [])
      | inr scores ↦ (scores, [])
    ]
  ]

  unfoldable pub vectors_by_hero : List s.Vector → Map ℕ s.Vector → Map ℕ s.Vector
  vectors_by_hero [] m = m
  vectors_by_hero (v ∷ vectors) m = vectors_by_hero vectors (insert ℕ_discrete (s.hero_of v) v m)

  -- The loop over the best scores, the next one of which gets the rank `rank`.
  unfoldable pub recommend_from :
      Map ℕ s.Vector → ℕ → List (Score s.float.F) → List (Recommendation s.float.F)
  unfolding reasons_from_risk_reasons
  recommend_from by_hero rank [] = []
  recommend_from by_hero rank (sc ∷ top) =
      let (reasons, risks) = s.explain (lookup ℕ_discrete sc.hero by_hero) sc.value in
      record {
        hero = sc.hero;
        name = s.hero_name sc.hero;
        score = sc.value;
        rank = rank;
        reasons = reasons;
        risks = reasons_from_risk_reasons s.float risks;
      }
      ∷ recommend_from by_hero (rank + 1) top

  -- Steps 4 to 9 of `Recommend`, from the scores of the imitation model. A `k` of 0 stands for all
  -- that is not positive.
  unfoldable pub rank_scores : ℕ → List s.Vector → List (Score s.float.F) → Outcome s.float.F
  unfolding score_value vectors_by_hero recommend_from combine sort_scores
  rank_scores k vectors imitation =
      let (values, warnings) = score_value vectors in
      let final = sort_scores s.float (combine s.float s.ensemble imitation values) in
      let n = if k == 0 || ltb (length final) k then length final else k in
      record {
        recommendations = recommend_from (vectors_by_hero vectors []) 1 (take n final);
        used_value_model = elim s.value_scorer [ none ↦ false | some _ ↦ true ];
        warnings = warnings;
      }

  -- `Recommend` from the answer of the imitation model on, from the answer of the builder on, and
  -- from the candidates on.
  unfoldable pub on_scored :
      ℕ → List s.Vector → Text ⊎ List (Score s.float.F) → Text ⊎ Outcome s.float.F
  unfolding rank_scores
  on_scored k vectors (inl e) = inl e
  on_scored k vectors (inr imitation) = inr (rank_scores k vectors imitation)

  unfoldable pub on_built : ℕ → Text ⊎ List s.Vector → Text ⊎ Outcome s.float.F
  unfolding on_scored
  on_built k (inl e) = inl e
  on_built k (inr vectors) = on_scored k vectors (s.scorer vectors)

  unfoldable pub on_candidates : ℕ → DraftState → List ℕ → Text ⊎ Outcome s.float.F
  unfolding on_built
  on_candidates k st [] =
      inr (record { recommendations = []; used_value_model = false; warnings = [] })
  on_candidates k st (id ∷ ids) = on_built k (s.build st (id ∷ ids))

  unfoldable pub recommend : List ℕ → DraftState → ℕ → Text ⊎ Outcome s.float.F
  unfolding on_candidates
  recommend catalog st k = on_candidates k st (legal_heroes st catalog)
