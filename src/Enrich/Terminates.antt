-- ===== src/Enrich/Terminates.antt =====
-- How deep the calls of `visit` nest in `sortByDependencies`: each holds a name of `inStack`.
use mathlib.Core.Logic.{∥∥₁_elim}
use native.Mathlib.Bridge.{le_prop}
use mathlib.Core.List.{Mem, Memᴰ, mem-cons_self, mem-cons_of_mem, mem-map_of_mem}
use dota2_analysis.Base.{
  ℕ, zero, suc, ◌+◌, ◌≤◌, ◌<◌, ◌≡◌, ◌≢◌, refl, sym, ap, subst, ◌∙◌, Bool, true, false, inl, inr,
  List, [], ◌∷◌, some, if◌then◌else◌, arith, Bool-cases, length,
}
use dota2_analysis.Base.Text.{Text, Text-discrete}
use dota2_analysis.Enrich.{
  RunSource, missing, cycle, stalled, Progress, Visit, set_flag, is_known, and_then, start, enter,
  leave, append_source, name_map, node, visit_deps, visit_node, visit, visit_all,
  sort_by_dependencies,
}
use dota2_analysis.Enrich.Names.{is_known_of_mem, node_of_known}
use dota2_analysis.Enrich.Steps.{set_flag_self, set_flag_ne, visit-in_stack}

-- The sources whose name is not being visited.
abbrev pub outside : (Text → Bool) → List RunSource → ℕ
outside f [] = 0
outside f (s ∷ sources) = (if f s.name then 0 else 1) + outside f sources

pub outside-le-length :
    (f : Text → Bool) (sources : List RunSource) → outside f sources ≤ length sources
outside-le-length f [] = omega arith
outside-le-length f (s ∷ sources) = ground (arith, outside-le-length f sources)

outside-set_flag-le :
    (k : Text) (f : Text → Bool) (sources : List RunSource)
    → outside (set_flag k true f) sources ≤ outside f sources
outside-set_flag-le k f [] = omega arith
outside-set_flag-le k f (s ∷ sources) =
    let ih = outside-set_flag-le k f sources in
    elim (Text-discrete k s.name) [
      | yes e ↦
          let set : set_flag k true f s.name ≡ true =
            subst (λ j. set_flag k true f j ≡ true) e (set_flag_self k true f) in
          ground arith
      | no n ↦ let same = set_flag_ne k s.name true f n in ground arith
    ]

outside-set_flag-ltᴰ :
    (k : Text) (f : Text → Bool) (s : RunSource) (sources : List RunSource)
    → f k ≡ false
    → s.name ≡ k
    → Memᴰ s sources
    → outside (set_flag k true f) sources < outside f sources
outside-set_flag-ltᴰ k f s [] out e i = elim i [ ]
outside-set_flag-ltᴰ k f s (x ∷ sources) out e (Memᴰ.head same) =
    let at : k ≡ x.name = sym (ap (λ t. t.name) (sym same) ∙ e) in
    let set : set_flag k true f x.name ≡ true =
      subst (λ j. set_flag k true f j ≡ true) at (set_flag_self k true f) in
    let before : f x.name ≡ false = subst (λ j. f j ≡ false) at out in
    ground (arith, outside-set_flag-le k f sources)
outside-set_flag-ltᴰ k f s (x ∷ sources) out e (Memᴰ.tail i) =
    let ih = outside-set_flag-ltᴰ k f s sources out e i in
    elim (Text-discrete k x.name) [
      | yes at ↦
          let set : set_flag k true f x.name ≡ true =
            subst (λ j. set_flag k true f j ≡ true) at (set_flag_self k true f) in
          ground arith
      | no n ↦ let same = set_flag_ne k x.name true f n in ground arith
    ]

pub outside-set_flag-lt :
    (k : Text) (f : Text → Bool) (s : RunSource) (sources : List RunSource)
    → f k ≡ false
    → s.name ≡ k
    → Mem s sources
    → outside (set_flag k true f) sources < outside f sources
outside-set_flag-lt k f s sources out e i =
    ∥∥₁_elim i le_prop (outside-set_flag-ltᴰ k f s sources out e)

inr≢stalled : (p : Progress) → ◌≢◌ {A = Visit} (inr p) (inl stalled)
inr≢stalled p h = cc

and_then-stalled :
    (v : Visit) (k : Progress → Visit)
    → v ≢ inl stalled
    → ((p : Progress) → v ≡ inr p → k p ≢ inl stalled)
    → and_then v k ≢ inl stalled
unfolding and_then
and_then-stalled (inl e) k a b h = a h
and_then-stalled (inr p) k a b h = b p refl h

module _ (sources : List RunSource) (rec : Text → Progress → Visit) (stack : Text → Bool)
    (keep : (d : Text) (p q : Progress) → rec d p ≡ inr q → q.in_stack ≡ p.in_stack)
    (ends : (d : Text) (p : Progress)
      → p.in_stack ≡ stack
      → is_known d (name_map sources) ≡ true
      → rec d p ≢ inl stalled) where
  visit_deps_ends :
      (name : Text) (deps : List Text) (p : Progress)
      → p.in_stack ≡ stack
      → visit_deps sources rec name deps p ≢ inl stalled
  unfolding visit_deps
  visit_deps_ends name [] p st h = inr≢stalled p h
  visit_deps_ends name (d ∷ deps) p st h = elim (Bool-cases (is_known d (name_map sources))) [
    | inl k ↦
        and_then-stalled (rec d p) (visit_deps sources rec name deps) (ends d p st k)
          (λ q first. visit_deps_ends name deps q (keep d p q first ∙ st)) (rw (k, visit_deps) at h)
    | inr u ↦
        let bad : ◌≡◌ {A = Visit} (inl (missing d name)) (inl stalled) = rw (u, visit_deps) at h in
        cc
  ]

  visit_node_ends :
      (name : Text) (s : RunSource) (p : Progress)
      → p.in_stack ≡ stack
      → visit_node sources rec name (some s) p ≢ inl stalled
  unfolding visit_node
  visit_node_ends name s p st =
      and_then-stalled (visit_deps sources rec name s.depends_on p) _
        (visit_deps_ends name s.depends_on p st) (λ q _. inr≢stalled (append_source name s q))

module _ (sources : List RunSource) where
  -- One more unit of fuel than there are sources outside `inStack`.
  visit_ends :
      (fuel : ℕ) (name : Text) (p : Progress)
      → is_known name (name_map sources) ≡ true
      → outside p.in_stack sources < fuel
      → visit sources fuel name p ≢ inl stalled
  unfolding visit enter leave
  visit_ends zero name p k enough h = absurd (omega arith)
  visit_ends (suc fuel) name p k enough h = elim (Bool-cases (p.done name)) [
    | inl d ↦ inr≢stalled p (rw (d, visit) at h)
    | inr d ↦ elim (Bool-cases (p.in_stack name)) [
      | inl s ↦
          let bad : ◌≡◌ {A = Visit} (inl (cycle name)) (inl stalled) =
            rw (s, visit) at (rw (d, visit) at h) in
          cc
      | inr out ↦
          let (s, found, same, mem) = node_of_known sources name k in
          let fewer = outside-set_flag-lt name p.in_stack s sources out same mem in
          let body =
            visit_node_ends sources (visit sources fuel) (enter name p).in_stack
              (visit-in_stack sources fuel)
              (λ d q st known.
                visit_ends fuel d q known
                  (subst (λ f. outside f sources < fuel) (sym st) (omega arith)))
              name s (enter name p) refl in
          and_then-stalled
            (visit_node sources (visit sources fuel) name (node sources name) (enter name p)) _
            (subst
              (λ o. visit_node sources (visit sources fuel) name o (enter name p) ≢ inl stalled)
              (sym found) body)
            (λ q _. inr≢stalled (leave name q)) (rw (out, visit) at (rw (d, visit) at h))
    ]
  ]

  visit_all_ends :
      (fuel : ℕ) (nodes : List RunSource) (p : Progress)
      → ((s : RunSource) → Mem s nodes → Mem s sources)
      → length sources < fuel
      → visit_all sources fuel nodes p ≢ inl stalled
  unfolding visit_all
  visit_all_ends fuel [] p sub enough h = inr≢stalled p h
  visit_all_ends fuel (s ∷ nodes) p sub enough h =
      and_then-stalled (visit sources fuel s.name p) _
        (visit_ends fuel s.name p
          (is_known_of_mem sources s.name (mem-map_of_mem _ (sub s mem-cons_self)))
          (omega (arith, outside-le-length p.in_stack sources)))
        (λ q _. visit_all_ends fuel nodes q (λ t i. sub t (mem-cons_of_mem s i)) enough) h

  -- The recursion of sortByDependencies ends on every list of sources, cyclic ones included: with
  -- one unit of fuel more than there are sources, the model never runs out of fuel.
  pub sort_by_dependencies_terminates : sort_by_dependencies sources ≢ inl stalled
  unfolding sort_by_dependencies
  sort_by_dependencies_terminates h =
      ground (arith, visit_all_ends (suc (length sources)) sources start (λ s i. i) (omega arith))
