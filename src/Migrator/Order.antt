-- ===== src/Migrator/Order.antt =====
-- What `loadMigrations` returns.
use mathlib.Core.List.{Perm}
use mathlib.Core.List.Perm
use dota2_analysis.Base.{
  ℕ, ◌≤◌, ◌<◌, ◌≡◌, refl, sym, subst, ◌⊎◌, inl, inr, List, [], ◌∷◌, none, some, ltb, Bool-cases,
  Option-cases, arith, All, All-mono,
}
use dota2_analysis.Migrator.{
  Migration, FsEntry, LoadError, collect, insert_by_version, sort_by_version, first_duplicate,
  check_versions, load_migrations,
}

-- Each version is at most, or below, the next one.
abbrev pub IsSorted : List Migration → Type 0
IsSorted [] = Unit {0}
IsSorted (m ∷ ms) = All (λ (n : Migration). m.version ≤ n.version) ms × IsSorted ms

abbrev pub IsIncreasing : List Migration → Type 0
IsIncreasing [] = Unit {0}
IsIncreasing (m ∷ ms) = All (λ (n : Migration). m.version < n.version) ms × IsIncreasing ms

perm-insert_by_version :
    (m : Migration) (ms : List Migration) → Perm (m ∷ ms) (insert_by_version m ms)
unfolding insert_by_version
perm-insert_by_version m [] = Perm.refl (m ∷ [])
perm-insert_by_version m (n ∷ ms) = elim (Bool-cases (ltb n.version m.version)) [
  | inl later ↦
      rw (later, insert_by_version)
        (Perm.trans (Perm.swap n m ms) (Perm.cons n (perm-insert_by_version m ms)))
  | inr here ↦ rw (here, insert_by_version) (Perm.refl (m ∷ n ∷ ms))
]

perm-sort_by_version : (ms : List Migration) → Perm ms (sort_by_version ms)
unfolding sort_by_version
perm-sort_by_version [] = Perm.refl []
perm-sort_by_version (m ∷ ms) =
    Perm.trans (Perm.cons m (perm-sort_by_version ms))
      (perm-insert_by_version m (sort_by_version ms))

insert_by_version_bound :
    (v : ℕ) (m : Migration) (ms : List Migration)
    → v ≤ m.version
    → All (λ (n : Migration). v ≤ n.version) ms
    → All (λ (n : Migration). v ≤ n.version) (insert_by_version m ms)
unfolding insert_by_version
insert_by_version_bound v m [] h k = (h, tt)
insert_by_version_bound v m (n ∷ ms) h k = elim (Bool-cases (ltb n.version m.version)) [
  | inl later ↦ rw (later, insert_by_version) (k.0, insert_by_version_bound v m ms h k.1)
  | inr here ↦ rw (here, insert_by_version) (h, k)
]

insert_by_version-IsSorted :
    (m : Migration) (ms : List Migration) → IsSorted ms → IsSorted (insert_by_version m ms)
unfolding insert_by_version
insert_by_version-IsSorted m [] s = (tt, tt)
insert_by_version-IsSorted m (n ∷ ms) s = elim (Bool-cases (ltb n.version m.version)) [
  | inl later ↦
      rw (later, insert_by_version)
        (
          insert_by_version_bound n.version m ms (ground arith) s.0,
          insert_by_version-IsSorted m ms s.1,
        )
  | inr here ↦
      let le : m.version ≤ n.version = ground arith in
      rw (here, insert_by_version) ((le, All-mono _ _ ms (λ x h. omega (arith, le, h)) s.0), s)
]

sort_by_version-IsSorted : (ms : List Migration) → IsSorted (sort_by_version ms)
unfolding sort_by_version
sort_by_version-IsSorted [] = tt
sort_by_version-IsSorted (m ∷ ms) =
    insert_by_version-IsSorted m (sort_by_version ms) (sort_by_version-IsSorted ms)

first_duplicate-IsIncreasing :
    (m : Migration) (ms : List Migration)
    → IsSorted (m ∷ ms)
    → first_duplicate m ms ≡ none
    → IsIncreasing (m ∷ ms)
unfolding first_duplicate
first_duplicate-IsIncreasing m [] s e = (tt, tt)
first_duplicate-IsIncreasing m (n ∷ ms) s e =
    let apart : m.version < n.version = ground arith in
    let rest = first_duplicate-IsIncreasing n ms s.1 (ground arith) in
    ((apart, All-mono _ _ ms (λ x h. omega (arith, apart, h)) rest.0), rest)

check_versions-IsIncreasing :
    (s ms : List Migration) → IsSorted s → check_versions s ≡ inr ms → IsIncreasing ms × (ms ≡ s)
unfolding check_versions
check_versions-IsIncreasing [] ms v e =
    let same : [] ≡ ms = ground arith in (subst IsIncreasing same tt, sym same)
check_versions-IsIncreasing (m ∷ rest) ms v e = elim (Option-cases (first_duplicate m rest)) [
  | inl none_twice ↦
      let same : m ∷ rest ≡ ms = ground arith in
      (subst IsIncreasing same (first_duplicate-IsIncreasing m rest v none_twice), sym same)
  | inr (twice, found) ↦ absurd (ground arith)
]

-- What `loadMigrations` returns is a permutation of what it has collected, in strictly increasing order
-- of the versions as numbers.
pub load_migrations-IsIncreasing :
    (entries : List FsEntry) (ms : List Migration)
    → load_migrations (some entries) ≡ inr ms
    → IsIncreasing ms × ((found : List Migration) × (collect entries ≡ inr found) × Perm found ms)
unfolding load_migrations
load_migrations-IsIncreasing entries ms e = by_collected (collect entries) refl e
  where
    by_collected :
        (c : LoadError ⊎ List Migration)
        → collect entries ≡ c
        → (elim c as (λ _. LoadError ⊎ List Migration) [
          | inl err ↦ inl err
          | inr found ↦ check_versions (sort_by_version found)
        ])
          ≡ inr ms
        → IsIncreasing ms
          × ((found : List Migration) × (collect entries ≡ inr found) × Perm found ms)
    by_collected (inl err) h e' = cc
    by_collected (inr found) h e' =
        let (up, same) =
          check_versions-IsIncreasing (sort_by_version found) ms (sort_by_version-IsSorted found)
            e' in
        (up, (found, h, subst (Perm found) (sym same) (perm-sort_by_version found)))
