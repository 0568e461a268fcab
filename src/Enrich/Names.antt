-- ===== src/Enrich/Names.antt =====
-- The index of the names of the sources in `sortByDependencies`.
use mathlib.Core.Logic.{∥∥₁_elim}
use mathlib.Core.Bool.{So-prop}
use mathlib.Core.List.{Mem, Memᴰ, mem-cons_of_mem}
use dota2_analysis.Base.{
  ℕ, zero, suc, inl, inr, ◌+◌, ◌≡◌, refl, sym, ap, subst, ◌∙◌, true, List, [], ◌∷◌, Option, none,
  some, arith, get_elem?, Option-cases, Map, lookup, insert, lookup-insert_self, lookup-insert_ne,
}
use dota2_analysis.Base.Text.{Text, Text-discrete}
use dota2_analysis.Enrich.{RunSource, names, index_names, is_known, name_map, node}

-- Each entry of the index leads to a source of that name.
abbrev Indexes : List RunSource → Map Text ℕ → Type 0
Indexes all m =
    (n : Text) (i : ℕ)
    → lookup Text-discrete n m ≡ some i
    → (s : RunSource) × (get_elem? all i ≡ some s) × (s.name ≡ n)

insert-Indexes :
    (all : List RunSource) (s : RunSource) (k : ℕ) (m : Map Text ℕ)
    → get_elem? all k ≡ some s
    → Indexes all m
    → Indexes all (insert Text-discrete s.name k m)
insert-Indexes all s k m at ok n i h = elim (Text-discrete s.name n) [
  | yes e ↦
      let h' =
        subst (λ j. lookup Text-discrete j (insert Text-discrete s.name k m) ≡ some i) (sym e) h in
      let found = sym (lookup-insert_self Text-discrete s.name k m) ∙ h' in
      let same : k ≡ i = cc in (s, subst (λ j. get_elem? all j ≡ some s) same at, e)
  | no d ↦ ok n i (sym (lookup-insert_ne Text-discrete s.name n k m d) ∙ h)
]

index_names-Indexes :
    (all rest : List RunSource) (k : ℕ) (m : Map Text ℕ)
    → ((j : ℕ) → get_elem? rest j ≡ get_elem? all (k + j))
    → Indexes all m
    → Indexes all (index_names k rest m)
unfolding index_names
index_names-Indexes all [] k m at ok = ok
index_names-Indexes all (s ∷ rest) k m at ok =
    index_names-Indexes all rest (suc k) (insert Text-discrete s.name k m)
      (λ j. at (suc j) ∙ ap (get_elem? all) (omega arith))
      (insert-Indexes all s k m (sym (at 0 ∙ ap (get_elem? all) (omega arith))) ok)

is_known-insert :
    (n j : Text) (k : ℕ) (m : Map Text ℕ)
    → is_known n m ≡ true
    → is_known n (insert Text-discrete j k m) ≡ true
unfolding is_known
is_known-insert n j k m h = elim (Text-discrete j n) [
  | yes e ↦ rw e (rw (lookup-insert_self Text-discrete n k m, is_known) refl)
  | no d ↦ rw (lookup-insert_ne Text-discrete j n k m d, is_known) h
]

is_known-insert_self :
    (n : Text) (k : ℕ) (m : Map Text ℕ) → is_known n (insert Text-discrete n k m) ≡ true
unfolding is_known
is_known-insert_self n k m = rw (lookup-insert_self Text-discrete n k m, is_known) refl

index_names-is_known :
    (n : Text) (rest : List RunSource) (k : ℕ) (m : Map Text ℕ)
    → is_known n m ≡ true
    → is_known n (index_names k rest m) ≡ true
unfolding index_names
index_names-is_known n [] k m h = h
index_names-is_known n (s ∷ rest) k m h =
    index_names-is_known n rest (suc k) _ (is_known-insert n s.name k m h)

index_names_covers :
    (n : Text) (rest : List RunSource) (k : ℕ) (m : Map Text ℕ)
    → Memᴰ n (names rest)
    → is_known n (index_names k rest m) ≡ true
unfolding index_names
index_names_covers n [] k m i = elim i [ ]
index_names_covers n (s ∷ rest) k m (Memᴰ.head e) =
    index_names-is_known n rest (suc k) _ (rw (e) (is_known-insert_self s.name k m))
index_names_covers n (s ∷ rest) k m (Memᴰ.tail i) = index_names_covers n rest (suc k) _ i

get_elem?-mem :
    (all : List RunSource) (i : ℕ) (s : RunSource) → get_elem? all i ≡ some s → Mem s all
get_elem?-mem [] i s h = cc
get_elem?-mem (x ∷ all) zero s h = ∣ Memᴰ.head (let same : s ≡ x = cc in same) ∣₁
get_elem?-mem (x ∷ all) (suc i) s h = mem-cons_of_mem x (get_elem?-mem all i s h)

Indexes-nil : (all : List RunSource) → Indexes all []
unfolding lookup
Indexes-nil all n i h = absurd (let bad : ◌≡◌ {A = Option ℕ} none (some i) = h in cc)

module _ (sources : List RunSource) where
  pub is_known_of_mem : (n : Text) → Mem n (names sources) → is_known n (name_map sources) ≡ true
  unfolding name_map
  is_known_of_mem n i = ∥∥₁_elim i (So-prop _) (index_names_covers n sources 0 [])

  -- The node of a known name is a source of that name.
  pub node_of_known :
      (n : Text)
      → is_known n (name_map sources) ≡ true
      → (s : RunSource) × (node sources n ≡ some s) × (s.name ≡ n) × Mem s sources
  unfolding name_map is_known node
  node_of_known n h = elim (Option-cases (lookup Text-discrete n (name_map sources))) [
    | inl e ↦ absurd (ground (arith, e))
    | inr (i, e) ↦
        let (s, at, same) =
          index_names-Indexes sources sources 0 [] (λ j. ap (get_elem? sources) (omega arith))
            (Indexes-nil sources) n i e in
        (s, rw (e, node) at, same, get_elem?-mem sources i s at)
  ]
