-- ===== src/Enrich.antt =====
-- go-ingestion/internal/enrich/runner.go: the sources of enrichment data are put in an order that
-- respects their dependencies (`sortByDependencies`).
pub mod Names
pub mod Steps
pub mod Terminates
pub mod Ordered
pub mod Resolves
pub mod Run
use dota2_analysis.Base.{
  ℕ, zero, suc, ◌+◌, Bool, true, false, ◌⊎◌, inl, inr, List, [], ◌∷◌, ◌++◌, map, Option, none, some,
  ite, if◌then◌else◌, length, get_elem?, Map, lookup, insert,
}
use dota2_analysis.Base.Text.{Text, Text-discrete}

-- What the interface `RunSource` tells of a source without running it.
pub record RunSource : Type 0 where
  pub name : Text
  pub depends_on : List Text
  pub critical : Bool

-- `stalled` is no error of the code: the fuel of the model ran out.
pub data SortError : Type 0 where
  cycle : Text → SortError
  missing : (dependency source : Text) → SortError
  stalled : SortError

-- The variables of the closure `visit`; a name that a Go map does not hold reads as false.
pub record Progress : Type 0 where
  pub sorted : List RunSource
  pub in_stack : Text → Bool
  pub done : Text → Bool

unfoldable pub set_flag : Text → Bool → (Text → Bool) → Text → Bool
set_flag k b flags j = ite (Text-discrete k j) b (flags j)

abbrev pub names : List RunSource → List Text
names = map (λ s. s.name)

-- The loop that fills `nameMap`: the last source of a name is the one that is found.
unfoldable pub index_names : ℕ → List RunSource → Map Text ℕ → Map Text ℕ
index_names i [] m = m
index_names i (s ∷ sources) m = index_names (suc i) sources (insert Text-discrete s.name i m)

unfoldable pub is_known : Text → Map Text ℕ → Bool
is_known name m = elim (lookup Text-discrete name m) [ none ↦ false | some _ ↦ true ]

abbrev pub Visit : Type 0
Visit = SortError ⊎ Progress

unfoldable pub and_then : Visit → (Progress → Visit) → Visit
and_then (inl e) k = inl e
and_then (inr p) k = k p

unfoldable pub start : Progress
start = record { sorted = []; in_stack = λ _. false; done = λ _. false }

unfoldable pub enter : Text → Progress → Progress
enter name p = record p { in_stack = set_flag name true p.in_stack }

unfoldable pub leave : Text → Progress → Progress
leave name p = record p { in_stack = set_flag name false p.in_stack }

unfoldable pub append_source : Text → RunSource → Progress → Progress
append_source name s p =
    if p.done name
    then p
    else record p { sorted = p.sorted ++ s ∷ []; done = set_flag name true p.done }

module _ (sources : List RunSource) where
  unfoldable pub name_map : Map Text ℕ
  unfolding index_names
  name_map = index_names 0 sources []

  -- `nodes[nameMap[name]]`, the node of a name that is known.
  unfoldable pub node : Text → Option RunSource
  unfolding name_map
  node name = elim (lookup Text-discrete name name_map) [
    | none ↦ none
    | some idx ↦ get_elem? sources idx
  ]

  -- The loop over the dependencies of `name`, where `rec` visits one.
  unfoldable pub visit_deps : (Text → Progress → Visit) → Text → List Text → Progress → Visit
  unfolding is_known and_then name_map
  visit_deps rec name [] p = inr p
  visit_deps rec name (dep ∷ deps) p =
      let next = and_then (rec dep p) (visit_deps rec name deps) in
      if is_known dep name_map then next else inl (missing dep name)

  -- `visit` between its two writes of `inStack[name]`.
  unfoldable pub visit_node : (Text → Progress → Visit) → Text → Option RunSource → Progress → Visit
  unfolding visit_deps and_then append_source
  visit_node rec name none p = inr p
  visit_node rec name (some s) p =
      and_then (visit_deps rec name s.depends_on p) (λ q. inr (append_source name s q))

  unfoldable pub visit : ℕ → Text → Progress → Visit
  unfolding visit_node node and_then enter leave
  visit zero name p = inl stalled
  visit (suc fuel) name p =
      let body = visit_node (visit fuel) name (node name) (enter name p) in
      if p.done name
      then inr p
      else if p.in_stack name
      then inl (cycle name)
      else and_then body (λ q. inr (leave name q))

  -- The loop over the nodes, each by its id.
  unfoldable pub visit_all : ℕ → List RunSource → Progress → Visit
  unfolding visit and_then
  visit_all fuel [] p = inr p
  visit_all fuel (s ∷ nodes) p = and_then (visit fuel s.name p) (visit_all fuel nodes)

  -- `skipped`, the second result of the code, is always empty.
  unfoldable pub sort_by_dependencies : SortError ⊎ List RunSource
  unfolding visit_all start
  sort_by_dependencies = elim (visit_all (suc (length sources)) sources start) [
    | inl e ↦ inl e
    | inr p ↦ inr p.sorted
  ]
