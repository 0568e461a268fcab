-- ===== src/Enrich/Ordered.antt =====
-- The list that `sortByDependencies` returns.
use mathlib.Core.Logic.Or
use mathlib.Core.Logic.{∥∥₁_elim}
use mathlib.Core.Bool.{So-prop}
use mathlib.Core.HLevel.{⊥_prop}
use mathlib.Core.List.{
  Mem, mem-cons_self, mem-cons_of_mem, mem-map_of_mem, exists_of_mem-map, Mem-prop, mem-append,
  mem-append_left, mem-append_right, mem-cons, Nodup, Nodup-append, Nodup-cons, Nodup-nil,
  map-append, append-nil, append_assoc, not-mem-nil,
}
use dota2_analysis.Base.{
  ℕ, zero, suc, ◌≡◌, refl, sym, subst, ◌∙◌, Bool, true, false, ◌↔◌, ◌⊎◌, inl, inr, List, [], ◌∷◌,
  ◌++◌, some, Bool-cases, length,
}
use dota2_analysis.Base.Text.{Text, Text-discrete}
use dota2_analysis.Enrich.{
  RunSource, SortError, stalled, Progress, Visit, names, set_flag, is_known, start, enter, leave,
  append_source, name_map, visit_deps, visit_node, visit, visit_all, sort_by_dependencies,
}
use dota2_analysis.Enrich.Names.{is_known_of_mem, node_of_known}
use dota2_analysis.Enrich.Steps.{
  set_flag_self, set_flag_ne, and_then-eq, inr-injective, visit_deps-eq, visit_node-eq, visit-eq,
}

-- Each source stands after all that it depends on: the names in `seen` and those before it.
abbrev pub IsOrdered : List Text → List RunSource → Type 0
IsOrdered seen [] = Unit
IsOrdered seen (s ∷ sources) =
    ((d : Text) → Mem d s.depends_on → Mem d seen) × IsOrdered (seen ++ s.name ∷ []) sources

IsOrdered-append :
    (seen : List Text) (sources : List RunSource) (s : RunSource)
    → IsOrdered seen sources
    → ((d : Text) → Mem d s.depends_on → Mem d (seen ++ names sources))
    → IsOrdered seen (sources ++ s ∷ [])
IsOrdered-append seen [] s _ deps = (λ d i. subst (Mem d) (append-nil seen) (deps d i), tt)
IsOrdered-append seen (x ∷ sources) s (first, rest) deps = (
  first,
  IsOrdered-append (seen ++ x.name ∷ []) sources s rest
      (λ d i. subst (Mem d) (sym (append_assoc seen (x.name ∷ []) (names sources))) (deps d i)),
)

-- A member of a list of one is that one.
singleton-elim : {A P : Type 0} {a b : A} → IsProp P → Mem a (b ∷ []) → (a ≡ b → P) → P
singleton-elim prop i f = Or.elim prop (mem-cons.0 i) f (λ j. absurd (not-mem-nil j))

names-mem :
    {sources : List RunSource} (l : List RunSource)
    → ((s : RunSource) → Mem s l → Mem s sources)
    → (n : Text) → Mem n (names l)
    → Mem n (names sources)
names-mem l own n i =
    ∥∥₁_elim (exists_of_mem-map i) Mem-prop
      (λ (s, at, e). subst (λ m. Mem m (names _)) e (mem-map_of_mem _ (own s at)))

module _ (sources : List RunSource) where
  record Sound (p : Progress) : Type 0 where
    listed : (n : Text) → p.done n ≡ true → Mem n (names p.sorted)
    done_all : (n : Text) → Mem n (names p.sorted) → p.done n ≡ true
    distinct : Nodup (names p.sorted)
    ordered : IsOrdered [] p.sorted
    own : (s : RunSource) → Mem s p.sorted → Mem s sources

  -- What a part of the recursion keeps.
  abbrev Extends : Progress → Progress → Type 0
  Extends p q = Sound q × ((n : Text) → p.done n ≡ true → q.done n ≡ true)

  Sound-start : Sound start
  unfolding start
  Sound-start = record {
    listed = λ n h. absurd (let bad : false ≡ true = h in cc);
    done_all = λ n i. absurd (not-mem-nil i);
    distinct = Nodup-nil;
    ordered = tt;
    own = λ s i. absurd (not-mem-nil i);
  }

  Sound-append :
      (s : RunSource) (p : Progress)
      → Sound p
      → Mem s sources
      → p.done s.name ≡ false
      → ((d : Text) → Mem d s.depends_on → p.done d ≡ true)
      → Sound (record p { sorted = p.sorted ++ s ∷ []; done = set_flag s.name true p.done })
  Sound-append s p ok mem new deps =
      let split = map-append (λ (t : RunSource). t.name) p.sorted (s ∷ []) in
      record {
        listed = λ n h. subst (Mem n) (sym split) (elim (Text-discrete s.name n) [
          | yes e ↦
              mem-append_right (names p.sorted) (subst (λ m. Mem n (m ∷ [])) (sym e) mem-cons_self)
          | no d ↦
              mem-append_left (s.name ∷ [])
                (ok.listed n (sym (set_flag_ne s.name n true p.done d) ∙ h))
        ]);
        done_all = λ n i. elim (Text-discrete s.name n) [
          | yes e ↦
              subst (λ m. set_flag s.name true p.done m ≡ true) e (set_flag_self s.name true p.done)
          | no d ↦
              set_flag_ne s.name n true p.done d
              ∙ Or.elim (So-prop _) (mem-append.0 (subst (Mem n) split i)) (ok.done_all n)
                  (λ j. singleton-elim (So-prop _) j (λ e. absurd (d (sym e))))
        ];
        distinct = subst Nodup (sym split) (
            Nodup-append.1 (
              ok.distinct,
              Nodup-cons.1 (not-mem-nil, Nodup-nil),
              λ n i j. singleton-elim ⊥_prop j (λ e.
                  let bad : true ≡ false =
                    sym (ok.done_all n i) ∙ subst (λ m. p.done m ≡ false) (sym e) new in
                  cc),
            ));
        ordered = IsOrdered-append [] p.sorted s ok.ordered (λ d i. ok.listed d (deps d i));
        own = λ t i.
            Or.elim Mem-prop (mem-append.0 i) (ok.own t)
              (λ j. singleton-elim Mem-prop j (λ e. subst (λ u. Mem u sources) (sym e) mem));
      }

  append_source-Extends :
      (s : RunSource) (p : Progress)
      → Sound p
      → Mem s sources
      → ((d : Text) → Mem d s.depends_on → p.done d ≡ true)
      → Extends p (append_source s.name s p) × ((append_source s.name s p).done s.name ≡ true)
  unfolding append_source
  append_source-Extends s p ok mem deps = elim (Bool-cases (p.done s.name)) [
    | inl old ↦ rw old ((ok, λ n h. h), old)
    | inr new ↦ rw new (
      (
        Sound-append s p ok mem new deps,
        λ n h. elim (Text-discrete s.name n) [
          | yes e ↦
              subst (λ m. set_flag s.name true p.done m ≡ true) e (set_flag_self s.name true p.done)
          | no d ↦ set_flag_ne s.name n true p.done d ∙ h
        ],
      ),
      set_flag_self s.name true p.done,
    )
  ]

  -- A visit of a known name that returns has it done, and all that was done before.
  abbrev Visits : (Text → Progress → Visit) → Type 0
  Visits rec =
      (d : Text) (p q : Progress)
      → is_known d (name_map sources) ≡ true
      → Sound p
      → rec d p ≡ inr q
      → Extends p q × (q.done d ≡ true)

  visit_deps-Extends :
      (rec : Text → Progress → Visit)
      → Visits rec
      → (name : Text) (deps : List Text) (p q : Progress) → Sound p
      → visit_deps sources rec name deps p ≡ inr q
      → Extends p q × ((d : Text) → Mem d deps → q.done d ≡ true)
  unfolding visit_deps
  visit_deps-Extends rec ih name [] p q ok h =
      let same = inr-injective h in
      (
        (subst Sound same ok, λ n old. subst (λ r. r.done n ≡ true) same old),
        λ d i. absurd (not-mem-nil i),
      )
  visit_deps-Extends rec ih name (d ∷ deps) p q ok h =
      let (known, (r, first, rest)) = visit_deps-eq sources rec name d deps p q h in
      let ((ok_r, kept), new) = ih d p r known ok first in
      let ((ok_q, kept'), all) = visit_deps-Extends rec ih name deps r q ok_r rest in
      (
        (ok_q, λ n old. kept' n (kept n old)),
        λ e i.
            Or.elim (So-prop _) (mem-cons.0 i)
              (λ same. subst (λ m. q.done m ≡ true) (sym same) (kept' d new)) (all e),
      )

  Sound-in_stack : (p : Progress) (f : Text → Bool) → Sound p → Sound (record p { in_stack = f })
  Sound-in_stack p f ok = record {
    listed = ok.listed;
    done_all = ok.done_all;
    distinct = ok.distinct;
    ordered = ok.ordered;
    own = ok.own;
  }

  visit_node-Extends :
      (rec : Text → Progress → Visit)
      → Visits rec
      → (s : RunSource) (p q : Progress) → Mem s sources
      → Sound p
      → visit_node sources rec s.name (some s) p ≡ inr q
      → Extends p q × (q.done s.name ≡ true)
  visit_node-Extends rec ih s p q mem ok h =
      let (r, deps, last) = visit_node-eq sources rec s.name s p q h in
      let ((ok_r, kept), all) = visit_deps-Extends rec ih s.name s.depends_on p r ok deps in
      let ((ok_q, kept'), new) = append_source-Extends s r ok_r mem all in
      subst (λ t. Extends p t × (t.done s.name ≡ true)) last
        ((ok_q, λ n old. kept' n (kept n old)), new)

  visit-Extends : (fuel : ℕ) → Visits (visit sources fuel)
  unfolding visit enter leave
  visit-Extends zero d p q known ok h =
      absurd (let bad : ◌≡◌ {A = Visit} (inl stalled) (inr q) = h in cc)
  visit-Extends (suc fuel) d p q known ok h = elim (visit-eq sources fuel d p q h) [
    | inl (old, same) ↦ (
      (subst Sound same ok, λ n old. subst (λ r. r.done n ≡ true) same old),
      subst (λ r. r.done d ≡ true) same old,
    )
    | inr (_, (r, body, last)) ↦
        let (s, found, same, mem) = node_of_known sources d known in
        let body' =
          subst (λ o. visit_node sources (visit sources fuel) d o (enter d p) ≡ inr r) found body in
        let at =
          subst (λ n. visit_node sources (visit sources fuel) n (some s) (enter d p) ≡ inr r)
            (sym same) body' in
        let ((ok_r, kept), new) =
          visit_node-Extends (visit sources fuel) (visit-Extends fuel) s (enter d p) r mem
            (Sound-in_stack p (set_flag d true p.in_stack) ok) at in
        subst (λ t. Extends p t × (t.done d ≡ true)) last
          (
            (Sound-in_stack r (set_flag d false r.in_stack) ok_r, kept),
            subst (λ n. r.done n ≡ true) same new,
          )
  ]

  visit_all-Extends :
      (fuel : ℕ) (nodes : List RunSource) (p q : Progress)
      → ((s : RunSource) → Mem s nodes → Mem s sources)
      → Sound p
      → visit_all sources fuel nodes p ≡ inr q
      → Extends p q × ((n : Text) → Mem n (names nodes) → q.done n ≡ true)
  unfolding visit_all
  visit_all-Extends fuel [] p q sub ok h =
      let same = inr-injective h in
      (
        (subst Sound same ok, λ n old. subst (λ r. r.done n ≡ true) same old),
        λ n i. absurd (not-mem-nil i),
      )
  visit_all-Extends fuel (s ∷ nodes) p q sub ok h =
      let (r, first, rest) = and_then-eq (visit sources fuel s.name p) _ q h in
      let known = is_known_of_mem sources s.name (mem-map_of_mem _ (sub s mem-cons_self)) in
      let ((ok_r, kept), new) = visit-Extends fuel s.name p r known ok first in
      let ((ok_q, kept'), all) =
        visit_all-Extends fuel nodes r q (λ t i. sub t (mem-cons_of_mem s i)) ok_r rest in
      (
        (ok_q, λ n old. kept' n (kept n old)),
        λ n i.
            Or.elim (So-prop _) (mem-cons.0 i)
              (λ same. subst (λ m. q.done m ≡ true) (sym same) (kept' s.name new)) (all n),
      )

  sort_by_dependencies-eq :
      (sorted : List RunSource)
      → sort_by_dependencies sources ≡ inr sorted
      → (p : Progress) × (visit_all sources (suc (length sources)) sources start ≡ inr p)
        × (p.sorted ≡ sorted)
  unfolding sort_by_dependencies
  sort_by_dependencies-eq sorted h =
      split (visit_all sources (suc (length sources)) sources start) h
    where
      split :
          (v : Visit)
          → ◌≡◌ {A = SortError ⊎ List RunSource}
              (elim v [ inl e ↦ inl e | inr p ↦ inr p.sorted ])
              (inr sorted)
          → (p : Progress) × (v ≡ inr p) × (p.sorted ≡ sorted)
      split (inl e) h =
          absurd (let bad : ◌≡◌ {A = SortError ⊎ List RunSource} (inl e) (inr sorted) = h in cc)
      split (inr p) h = (p, refl, cc)

  -- A list that sortByDependencies returns has each source after all its dependencies, the names of
  -- the sources given and no others, each name once, and only sources that were given.
  pub sort_by_dependencies-IsOrdered :
      (sorted : List RunSource)
      → sort_by_dependencies sources ≡ inr sorted
      → IsOrdered [] sorted
        × Nodup (names sorted)
        × ((n : Text) → Mem n (names sources) ↔ Mem n (names sorted))
        × ((s : RunSource) → Mem s sorted → Mem s sources)
  sort_by_dependencies-IsOrdered sorted h =
      let (p, ran, same) = sort_by_dependencies-eq sorted h in
      let ((ok, _), all) =
        visit_all-Extends (suc (length sources)) sources start p (λ s i. i) Sound-start ran in
      subst
        (λ l.
          IsOrdered [] l
          × Nodup (names l)
          × ((n : Text) → Mem n (names sources) ↔ Mem n (names l))
          × ((s : RunSource) → Mem s l → Mem s sources))
        same
        (
          ok.ordered,
          ok.distinct,
          λ n. (λ i. ok.listed n (all n i), λ i. names-mem p.sorted ok.own n i),
          ok.own,
        )
