-- ===== src/Enrich/Steps.antt =====
-- The parts of a call of `visit` that returns, and the map `inStack` after it.
use mathlib.Core.Path.{fun_ext}
use dota2_analysis.Base.{
  ℕ, zero, suc, ◌≡◌, ◌≢◌, refl, sym, ap, subst, ◌∙◌, Bool, true, false, ◌⊎◌, inl, inr, List, [],
  ◌∷◌, Option, none, some, if_pos, if_neg, arith, Bool-cases,
}
use dota2_analysis.Base.Text.{Text, Text-discrete}
use dota2_analysis.Enrich.{
  RunSource, missing, cycle, stalled, Progress, Visit, set_flag, is_known, and_then, enter, leave,
  append_source, name_map, node, visit_deps, visit_node, visit,
}

pub set_flag_self : (k : Text) (b : Bool) (f : Text → Bool) → set_flag k b f k ≡ b
unfolding set_flag
set_flag_self k b f = if_pos (Text-discrete k k) refl _ _

pub set_flag_ne : (k j : Text) (b : Bool) (f : Text → Bool) → k ≢ j → set_flag k b f j ≡ f j
unfolding set_flag
set_flag_ne k j b f n = if_neg (Text-discrete k j) n _ _

pub set_flag-set_flag :
    (k : Text) (f : Text → Bool) → f k ≡ false → set_flag k false (set_flag k true f) ≡ f
set_flag-set_flag k f h = fun_ext (λ j. elim (Text-discrete k j) [
  | yes e ↦
      subst (λ i. set_flag k false (set_flag k true f) i ≡ f i) e (set_flag_self k false _ ∙ sym h)
  | no n ↦ set_flag_ne k j false _ n ∙ set_flag_ne k j true f n
])

pub and_then-eq :
    (v : Visit) (k : Progress → Visit) (q : Progress)
    → and_then v k ≡ inr q
    → (p : Progress) × (v ≡ inr p) × (k p ≡ inr q)
unfolding and_then
and_then-eq (inl e) k q h = absurd (let bad : ◌≡◌ {A = Visit} (inl e) (inr q) = h in cc)
and_then-eq (inr p) k q h = (p, refl, h)

pub inr-injective : {p q : Progress} → ◌≡◌ {A = Visit} (inr p) (inr q) → p ≡ q
inr-injective h = cc

module _ (sources : List RunSource) (rec : Text → Progress → Visit) where
  pub visit_deps-eq :
      (name dep : Text) (deps : List Text) (p q : Progress)
      → visit_deps sources rec name (dep ∷ deps) p ≡ inr q
      → (is_known dep (name_map sources) ≡ true)
        × ((r : Progress) × (rec dep p ≡ inr r) × (visit_deps sources rec name deps r ≡ inr q))
  unfolding visit_deps
  visit_deps-eq name dep deps p q h = elim (Bool-cases (is_known dep (name_map sources))) [
    | inl k ↦ (k, and_then-eq (rec dep p) _ q (rw (k, visit_deps) at h))
    | inr u ↦
        absurd (
          let bad : ◌≡◌ {A = Visit} (inl (missing dep name)) (inr q) = rw (u, visit_deps) at h in
          cc)
  ]

  pub visit_node-eq :
      (name : Text) (s : RunSource) (p q : Progress)
      → visit_node sources rec name (some s) p ≡ inr q
      → (r : Progress) × (visit_deps sources rec name s.depends_on p ≡ inr r)
        × (append_source name s r ≡ q)
  unfolding visit_node
  visit_node-eq name s p q h =
      let (r, deps, last) = and_then-eq (visit_deps sources rec name s.depends_on p) _ q h in
      (r, deps, inr-injective last)

  -- The loop over the dependencies leaves `inStack` as each visit does.
  visit_deps-in_stack :
      ((d : Text) (p q : Progress) → rec d p ≡ inr q → q.in_stack ≡ p.in_stack)
      → (name : Text) (deps : List Text) (p q : Progress)
      → visit_deps sources rec name deps p ≡ inr q
      → q.in_stack ≡ p.in_stack
  unfolding visit_deps
  visit_deps-in_stack keep name [] p q h = ap (λ r. r.in_stack) (sym (inr-injective h))
  visit_deps-in_stack keep name (d ∷ deps) p q h =
      let (_, (r, first, rest)) = visit_deps-eq name d deps p q h in
      visit_deps-in_stack keep name deps r q rest ∙ keep d p r first

  append_source-in_stack :
      (name : Text) (s : RunSource) (p : Progress) → (append_source name s p).in_stack ≡ p.in_stack
  unfolding append_source
  append_source-in_stack name s p = ground arith

  visit_node-in_stack :
      ((d : Text) (p q : Progress) → rec d p ≡ inr q → q.in_stack ≡ p.in_stack)
      → (name : Text) (o : Option RunSource) (p q : Progress)
      → visit_node sources rec name o p ≡ inr q
      → q.in_stack ≡ p.in_stack
  unfolding visit_node
  visit_node-in_stack keep name none p q h = ap (λ r. r.in_stack) (sym (inr-injective h))
  visit_node-in_stack keep name (some s) p q h =
      let (r, deps, last) = visit_node-eq name s p q h in
      subst (λ t. t.in_stack ≡ p.in_stack) last
        (append_source-in_stack name s r ∙ visit_deps-in_stack keep name s.depends_on p r deps)

module _ (sources : List RunSource) where
  -- A visit that returns found the name done, or entered it, ran its body and left it.
  pub visit-eq :
      (fuel : ℕ) (name : Text) (p q : Progress)
      → visit sources (suc fuel) name p ≡ inr q
      → ((p.done name ≡ true) × (p ≡ q))
        ⊎ ((p.in_stack name ≡ false)
            × ((r : Progress) × (visit_node sources
                    (visit sources fuel)
                    name
                    (node sources name)
                    (enter name p)
                  ≡ inr r)
                × (leave name r ≡ q)))
  unfolding visit
  visit-eq fuel name p q h = elim (Bool-cases (p.done name)) [
    | inl d ↦ inl (d, inr-injective (rw (d, visit) at h))
    | inr d ↦ elim (Bool-cases (p.in_stack name)) [
      | inl s ↦ absurd (
          let bad : ◌≡◌ {A = Visit} (inl (cycle name)) (inr q) =
            rw (s, visit) at (rw (d, visit) at h) in
          cc)
      | inr s ↦
          let h' = rw (s, visit) at (rw (d, visit) at h) in
          let (r, body, last) =
            and_then-eq
              (visit_node sources (visit sources fuel) name (node sources name) (enter name p)) _ q
              h' in
          inr (s, (r, body, inr-injective last))
    ]
  ]

  -- A visit that returns leaves `inStack` as it was.
  pub visit-in_stack :
      (fuel : ℕ) (name : Text) (p q : Progress)
      → visit sources fuel name p ≡ inr q
      → q.in_stack ≡ p.in_stack
  unfolding visit enter leave
  visit-in_stack zero name p q h =
      absurd (let bad : ◌≡◌ {A = Visit} (inl stalled) (inr q) = h in cc)
  visit-in_stack (suc fuel) name p q h = elim (visit-eq fuel name p q h) [
    | inl (_, e) ↦ ap (λ r. r.in_stack) (sym e)
    | inr (out, (r, body, e)) ↦
        let kept =
          visit_node-in_stack sources (visit sources fuel) (visit-in_stack fuel) name
            (node sources name) (enter name p) r body in
        subst (λ t. t.in_stack ≡ p.in_stack) e
          (ap (set_flag name false) kept ∙ set_flag-set_flag name p.in_stack out)
  ]
