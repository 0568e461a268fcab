-- ===== src/Tests/Recommend.antt =====
-- Recommendations: go-analysis/internal/recommend, with natural numbers for float64.
use mathlib.Core.List.{Perm}
use dota2_analysis.Base.{
  ℕ, ◌+◌, ◌*◌, ◌≡◌, refl, sym, subst, true, false, ◌||◌, ◌⊎◌, inr, List, [], ◌∷◌, map, none, ltb,
  ◌==◌, if◌then◌else◌, length, take, pos, lookup, insert, ℕ_discrete, ap, ◌∙◌, arith,
}
use dota2_analysis.Base.Text.{Text, decimal}
use dota2_analysis.Draft.Phases.{cm_phase_table}
use dota2_analysis.Draft.State.{us, DraftState, new_draft_state, legal_heroes, is_drafted}
use dota2_analysis.Recommend.{Float, Score, Service, Outcome, rank_scores, recommend}
use dota2_analysis.Recommend.Ranking.{heroes, IsDescending, IsRanked, rank_scores-IsRanked}

abbrev naturals : Float
naturals = record {
  F = ℕ;
  add = λ a b. a + b;
  mul = λ a b. a * b;
  is_zero = λ a. a == 0;
  greater = λ a b. ltb b a;
}

abbrev score_of : ℕ → Score ℕ
score_of h = record { hero = h; value = h }

abbrev service : Service
service = record {
  float = naturals;
  Vector = ℕ;
  hero_of = λ v. v;
  build = λ st ids. inr ids;
  scorer = λ vs. inr (map score_of vs);
  value_scorer = none;
  explain = λ v x. ([], []);
  hero_name = decimal;
  ensemble = record { imitation_weight = 1; value_weight = 0 };
}

asymmetric : (a b : ℕ) → ltb b a ≡ true → ltb a b ≡ false
asymmetric a b h = ground arith

co_transitive : (a b c : ℕ) → ltb a b ≡ false → ltb b c ≡ false → ltb a c ≡ false
co_transitive a b c h h' = ground arith

rank_scores-IsRanked_example :
    (final : List (Score ℕ)) × Perm
      (heroes naturals (map score_of (5 ∷ 9 ∷ [])))
      (heroes naturals final)
    × IsDescending naturals final
    × IsRanked naturals 1
        (take (if 1 == 0 || ltb (length final) 1 then length final else 1) final)
        (rank_scores service 1 (5 ∷ 9 ∷ []) (map score_of (5 ∷ 9 ∷ []))).recommendations
rank_scores-IsRanked_example =
    rank_scores-IsRanked service asymmetric co_transitive 1 (5 ∷ 9 ∷ []) (map score_of (5 ∷ 9 ∷ []))

abbrev draft : DraftState
draft =
    new_draft_state 60 us cm_phase_table
      (record { team_id = 1; roster = []; picks = 9 ∷ []; bans = [] })
      (record { team_id = 2; roster = []; picks = []; bans = [] }) (pos 9)

heroes-score_of : (vs : List ℕ) → heroes naturals (map score_of vs) ≡ map (λ v. v) vs
heroes-score_of [] = refl
heroes-score_of (v ∷ vs) = ap (◌∷◌ v) (heroes-score_of vs)

map_id : (vs : List ℕ) → map (λ v. v) vs ≡ vs
map_id [] = refl
map_id (v ∷ vs) = ap (◌∷◌ v) (map_id vs)

build_all :
    (st : DraftState) (ids vs : List ℕ)
    → ◌≡◌ {A = Text ⊎ List ℕ} (inr ids) (inr vs)
    → map (λ v. v) vs ≡ ids
build_all st ids vs e = let same : ids ≡ vs = cc in map_id vs ∙ sym same

score_all :
    (vs : List ℕ) (ts : List (Score ℕ))
    → ◌≡◌ {A = Text ⊎ List (Score ℕ)} (inr (map score_of vs)) (inr ts)
    → heroes naturals ts ≡ map (λ v. v) vs
score_all vs ts e =
    let same : map score_of vs ≡ ts = cc in
    subst (λ l. heroes naturals l ≡ map (λ v. v) vs) same (heroes-score_of vs)

-- Hero 9 is picked, so 8 is the best that is left.
abbrev best : Outcome ℕ
best = record {
  recommendations =
      record { hero = 8; name = decimal 8; score = 8; rank = 1; reasons = []; risks = [] } ∷ [];
  used_value_model = false;
  warnings = [];
}

best_is_eight : recommend service (5 ∷ 8 ∷ 9 ∷ []) draft 1 ≡ inr best
unfolding recommend legal_heroes new_draft_state is_drafted lookup insert ℕ_discrete
best_is_eight = refl
