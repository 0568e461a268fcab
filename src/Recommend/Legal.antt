-- ===== src/Recommend/Legal.antt =====
-- Which heroes `Recommend` of go-analysis/internal/recommend/recommender.go recommends.
use mathlib.Core.List.{Mem, mem-append_left}
use mathlib.Core.List.Perm
use dota2_analysis.Base.{
  ℕ, ◌+◌, ◌≡◌, refl, sym, ap, ◌∙◌, subst, false, ◌⊎◌, inl, inr, List, [], ◌∷◌, map, take, drop,
  take-append-drop, Map,
}
use mathlib.Core.List.{map-append}
use dota2_analysis.Base.Text.{Text}
use dota2_analysis.Draft.State.{DraftState, legal_heroes}
use dota2_analysis.Recommend.{
  Score, Service, Outcome, Recommendation, combine, sort_scores, recommend_from, score_value,
  rank_scores, recommend, vectors_by_hero, on_scored, on_built, on_candidates,
}
use dota2_analysis.Recommend.Ranking.{heroes, perm-sort_scores, heroes-combine}

abbrev pub recommended : (s : Service) → Outcome s.float.F → List ℕ
recommended s out = map (λ (r : Recommendation s.float.F). r.hero) out.recommendations

module _ (s : Service) where
  heroes-recommend_from :
      (by_hero : Map ℕ s.Vector) (rank : ℕ) (ts : List (Score s.float.F))
      → map (λ (r : Recommendation s.float.F). r.hero) (recommend_from s by_hero rank ts)
        ≡ heroes s.float ts
  unfolding recommend_from
  heroes-recommend_from by_hero rank [] = refl
  heroes-recommend_from by_hero rank (t ∷ ts) =
      ap (◌∷◌ t.hero) (heroes-recommend_from by_hero (rank + 1) ts)

  mem-take :
      (n a : ℕ) (ts : List (Score s.float.F))
      → Mem a (heroes s.float (take n ts))
      → Mem a (heroes s.float ts)
  mem-take n a ts i =
      subst (λ l. Mem a (heroes s.float l)) (take-append-drop n ts)
        (subst (Mem a) (sym (map-append _ (take n ts) (drop n ts)))
          (mem-append_left (heroes s.float (drop n ts)) i))

  mem-rank_scores :
      (k : ℕ) (vectors : List s.Vector) (imitation : List (Score s.float.F)) (a : ℕ)
      → Mem a (recommended s (rank_scores s k vectors imitation))
      → Mem a (heroes s.float imitation)
  unfolding rank_scores
  mem-rank_scores k vectors imitation a i =
      subst (Mem a) (heroes-combine s.float s.ensemble imitation (score_value s vectors).0) (
        (Perm.mem_iff (Perm.map _ (perm-sort_scores s.float combined))).1 (
          mem-take _ a (sort_scores s.float combined)
            (subst (Mem a) (heroes-recommend_from (vectors_by_hero s vectors []) 1 _) i)))
    where
      combined : List (Score s.float.F)
      combined = combine s.float s.ensemble imitation (score_value s vectors).0

-- The builder makes a vector for each candidate, and the imitation model scores each vector.
module _ (s : Service)
    (builds : (st : DraftState) (ids : List ℕ) (vs : List s.Vector)
      → s.build st ids ≡ inr vs
      → map s.hero_of vs ≡ ids)
    (scores : (vs : List s.Vector) (ts : List (Score s.float.F))
      → s.scorer vs ≡ inr ts
      → heroes s.float ts ≡ map s.hero_of vs) where
  mem-on_scored :
      (k : ℕ) (st : DraftState) (ids : List ℕ) (vs : List s.Vector)
      (r : Text ⊎ List (Score s.float.F)) (out : Outcome s.float.F) (a : ℕ)
      → s.build st ids ≡ inr vs
      → s.scorer vs ≡ r
      → on_scored s k vs r ≡ inr out
      → Mem a (recommended s out)
      → Mem a ids
  unfolding on_scored
  mem-on_scored k st ids vs (inl err) out a h h' e i = cc
  mem-on_scored k st ids vs (inr imitation) out a h h' e i =
      let same : rank_scores s k vs imitation ≡ out = cc in
      subst (Mem a) (scores vs imitation h' ∙ builds st ids vs h)
        (mem-rank_scores s k vs imitation a (subst (λ o. Mem a (recommended s o)) (sym same) i))

  mem-on_built :
      (k : ℕ) (st : DraftState) (ids : List ℕ) (r : Text ⊎ List s.Vector) (out : Outcome s.float.F)
      (a : ℕ)
      → s.build st ids ≡ r
      → on_built s k r ≡ inr out
      → Mem a (recommended s out)
      → Mem a ids
  unfolding on_built
  mem-on_built k st ids (inl err) out a h e i = cc
  mem-on_built k st ids (inr vs) out a h e i =
      mem-on_scored k st ids vs (s.scorer vs) out a h refl e i

  mem-on_candidates :
      (k : ℕ) (st : DraftState) (ids : List ℕ) (out : Outcome s.float.F) (a : ℕ)
      → on_candidates s k st ids ≡ inr out
      → Mem a (recommended s out)
      → Mem a ids
  unfolding on_candidates
  mem-on_candidates k st [] out a e i =
      let none_left : Outcome s.float.F = record {
        recommendations = [];
        used_value_model = false;
        warnings = [];
      } in
      let same : none_left ≡ out = cc in subst (λ o. Mem a (recommended s o)) (sym same) i
  mem-on_candidates k st (id ∷ ids) out a e i =
      mem-on_built k st (id ∷ ids) (s.build st (id ∷ ids)) out a refl e i

  -- For a builder that makes a vector per candidate and a model that scores each vector: every hero
  -- that is recommended is a legal hero of the draft.
  pub mem-recommend :
      (catalog : List ℕ) (st : DraftState) (k : ℕ) (out : Outcome s.float.F) (a : ℕ)
      → recommend s catalog st k ≡ inr out
      → Mem a (recommended s out)
      → Mem a (legal_heroes st catalog)
  unfolding recommend
  mem-recommend catalog st k out a e i = mem-on_candidates k st (legal_heroes st catalog) out a e i
