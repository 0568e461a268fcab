-- ===== src/Enrich/Resolves.antt =====
-- When `sortByDependencies` returns a list: the dependencies are known and form no cycle.
use mathlib.Core.List.{Mem, mem-cons_self, mem-cons_of_mem, mem-map_of_mem}
use dota2_analysis.Base.{
  ℕ, zero, suc, ◌<◌, ◌≡◌, refl, sym, ap, subst, ◌∙◌, Bool, true, false, inl, inr, List, [], ◌∷◌,
  arith, Bool-cases, length,
}
use dota2_analysis.Base.Text.{Text, Text-discrete}
use dota2_analysis.Enrich.{
  RunSource, Progress, Visit, names, set_flag, and_then, start, enter, leave, append_source, node,
  visit_deps, visit_node, visit, visit_all, sort_by_dependencies,
}
use dota2_analysis.Enrich.Names.{is_known_of_mem, node_of_known}
use dota2_analysis.Enrich.Steps.{set_flag_ne, visit-in_stack}
use dota2_analysis.Enrich.Terminates.{outside, outside-le-length, outside-set_flag-lt}

and_then-inr :
    (v : Visit) (k : Progress → Visit)
    → (p : Progress) × (v ≡ inr p)
    → ((p : Progress) → v ≡ inr p → (q : Progress) × (k p ≡ inr q))
    → (q : Progress) × (and_then v k ≡ inr q)
unfolding and_then
and_then-inr v k (p, e) next = let (q, e') = next p e in (q, rw (e, and_then) e')

sort_by_dependencies-inr :
    (sources : List RunSource) (p : Progress)
    → visit_all sources (suc (length sources)) sources start ≡ inr p
    → sort_by_dependencies sources ≡ inr p.sorted
unfolding sort_by_dependencies
sort_by_dependencies-inr sources p e = rw (e, sort_by_dependencies) refl

module _ (sources : List RunSource) (rank : Text → ℕ)
    -- Every dependency is the name of a source, and of a lower rank than what depends on it.
    (falls : (s : RunSource)
      → Mem s sources
      → (d : Text) → Mem d s.depends_on
      → Mem d (names sources) × (rank d < rank s.name)) where
  -- Whatever is being visited has a higher rank.
  abbrev Above : Text → (Text → Bool) → Type 0
  Above name stack = (m : Text) → stack m ≡ true → rank name < rank m

  Above-enter :
      (name d : Text) (stack : Text → Bool)
      → rank d < rank name
      → Above name stack
      → Above d (set_flag name true stack)
  Above-enter name d stack less above m h = elim (Text-discrete name m) [
    | yes e ↦ subst (λ n. rank d < rank n) e less
    | no n ↦ let higher = above m (sym (set_flag_ne name m true stack n) ∙ h) in omega arith
  ]

  visit_deps_resolves :
      (rec : Text → Progress → Visit) (stack : Text → Bool)
      → ((d : Text) (p q : Progress) → rec d p ≡ inr q → q.in_stack ≡ p.in_stack)
      → (name : Text) (deps : List Text) → ((d : Text) → Mem d deps → Mem d (names sources))
      → ((d : Text) (p : Progress)
          → Mem d deps
          → p.in_stack ≡ stack
          → (q : Progress) × (rec d p ≡ inr q))
      → (p : Progress) → p.in_stack ≡ stack
      → (q : Progress) × (visit_deps sources rec name deps p ≡ inr q)
  unfolding visit_deps
  visit_deps_resolves rec stack keep name [] known ends p st = (p, refl)
  visit_deps_resolves rec stack keep name (d ∷ deps) known ends p st =
      rw (is_known_of_mem sources d (known d mem-cons_self)) (
        and_then-inr (rec d p) (visit_deps sources rec name deps) (ends d p mem-cons_self st)
          (λ q first.
            visit_deps_resolves rec stack keep name deps (λ e i. known e (mem-cons_of_mem d i))
              (λ e r i. ends e r (mem-cons_of_mem d i)) q (keep d p q first ∙ st)))

  visit_resolves :
      (fuel : ℕ) (name : Text) (p : Progress)
      → Mem name (names sources)
      → outside p.in_stack sources < fuel
      → Above name p.in_stack
      → (q : Progress) × (visit sources fuel name p ≡ inr q)
  unfolding visit visit_node enter leave
  visit_resolves zero name p known enough above = absurd (omega arith)
  visit_resolves (suc fuel) name p known enough above = elim (Bool-cases (p.done name)) [
    | inl d ↦ (p, rw (d, visit) refl)
    | inr d ↦ elim (Bool-cases (p.in_stack name)) [
      | inl s ↦ absurd (let higher = above name s in omega arith)
      | inr out ↦
          let (s, found, same, mem) =
            node_of_known sources name (is_known_of_mem sources name known) in
          let fewer = outside-set_flag-lt name p.in_stack s sources out same mem in
          let stack = set_flag name true p.in_stack in
          let lower = λ (e : Text) (i : Mem e s.depends_on). falls s mem e i in
          let deps =
            visit_deps_resolves (visit sources fuel) stack (visit-in_stack sources fuel) name
              s.depends_on (λ e i. (lower e i).0)
              (λ e r i st.
                visit_resolves fuel e r (lower e i).0
                  (subst (λ f. outside f sources < fuel) (sym st) (omega arith))
                  (subst (Above e) (sym st) (
                    Above-enter name e p.in_stack (subst (λ n. rank e < rank n) same (lower e i).1)
                      above)))
              (enter name p) refl in
          let body =
            and_then-inr (visit_deps sources (visit sources fuel) name s.depends_on (enter name p))
              (λ q. inr (append_source name s q)) deps (λ q _. (append_source name s q, refl)) in
          let at =
            subst
              (λ o.
                (q : Progress) × (visit_node sources (visit sources fuel) name o (enter name p)
                  ≡ inr q))
              (sym found) body in
          rw (d, visit)
            (rw (out, visit)
              (and_then-inr
                (visit_node sources (visit sources fuel) name (node sources name) (enter name p))
                (λ q. inr (leave name q)) at (λ q _. (leave name q, refl))))
    ]
  ]

  visit_all_resolves :
      (fuel : ℕ) (nodes : List RunSource) (p : Progress)
      → ((s : RunSource) → Mem s nodes → Mem s sources)
      → length sources < fuel
      → p.in_stack ≡ start.in_stack
      → (q : Progress) × (visit_all sources fuel nodes p ≡ inr q)
  unfolding visit_all start
  visit_all_resolves fuel [] p sub enough st = (p, refl)
  visit_all_resolves fuel (s ∷ nodes) p sub enough st =
      and_then-inr (visit sources fuel s.name p) (visit_all sources fuel nodes)
        (visit_resolves fuel s.name p (mem-map_of_mem _ (sub s mem-cons_self))
          (omega (arith, outside-le-length p.in_stack sources))
          (λ m h. absurd (let bad : false ≡ true = sym (ap (λ f. f m) st) ∙ h in cc)))
        (λ q first.
          visit_all_resolves fuel nodes q (λ t i. sub t (mem-cons_of_mem s i)) enough
            (visit-in_stack sources fuel s.name p q first ∙ st))

  -- If each dependency is the name of a source, and of a lower rank than the source that depends on
  -- it (so that there is no cycle), sortByDependencies returns a list and no error.
  pub sort_by_dependencies_resolves :
      (sorted : List RunSource) × (sort_by_dependencies sources ≡ inr sorted)
  sort_by_dependencies_resolves =
      let (p, e) =
        visit_all_resolves (suc (length sources)) sources start (λ s i. i) (omega arith) refl in
      (p.sorted, sort_by_dependencies-inr sources p e)
