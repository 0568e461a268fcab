-- ===== src/Tests/Migrator.antt =====
-- The migrator: go-core/migrator/runner.go, over a table that is a list of versions.
use mathlib.Core.List.{Mem, Memᴰ}
use dota2_analysis.Base.{
  All, ℕ, ◌≡◌, refl, sym, ap, Option, inl, inr, Bool, true, false, ◌||◌, List, [], ◌∷◌, none, some,
  ◌==◌, arith, ℕ_discrete,
}
use dota2_analysis.Base.Text.{Text, codes, Text-discrete}
use dota2_analysis.Migrator.{Migration, FsEntry, duplicate_version, load_migrations, Database, run}
use dota2_analysis.Migrator.Order.{IsIncreasing}
use dota2_analysis.Migrator.Files.{IsNamed, migration_of, load_migrations_complete}
use dota2_analysis.Migrator.Runs.{Laws, run_complete}

abbrev file : Text → FsEntry
file name = record { is_dir = false; name = name; content = some [] }

abbrev second : Migration
second = record { version = 2; filename = codes "02_b.sql"; sql = [] }

abbrev tenth : Migration
tenth = record { version = 10; filename = codes "10_a.sql"; sql = [] }

abbrev dir : List FsEntry
dir =
    file (codes "10_a.sql")
    ∷ file (codes "seed.sql")
    ∷ file (codes "02_b.sql")
    ∷ file (codes "x_1.sql")
    ∷ []

dir_loads : load_migrations (some dir) ≡ inr (second ∷ tenth ∷ [])
unfolding load_migrations Text-discrete ℕ_discrete
dir_loads = refl

twice_rejected :
    load_migrations (some (file (codes "2_a.sql") ∷ file (codes "02_b.sql") ∷ []))
    ≡ inl (duplicate_version 2)
unfolding load_migrations Text-discrete ℕ_discrete
twice_rejected = refl

abbrev tenth_file : FsEntry
tenth_file = file (codes "10_a.sql")

tenth-IsNamed : IsNamed (codes "10_a.sql") (codes "10") (codes "a")
tenth-IsNamed = (
  refl,
  ((omega arith, omega arith), ((omega arith, omega arith), tt)),
  (inr (inr (inl (omega arith, omega arith))), tt),
)

load_migrations_complete_example :
    Mem (migration_of (codes "10_a.sql") (codes "10") []) (second ∷ tenth ∷ [])
    × IsIncreasing (second ∷ tenth ∷ [])
load_migrations_complete_example =
    load_migrations_complete dir (second ∷ tenth ∷ []) tenth_file (codes "10") (codes "a") []
      dir_loads (Memᴰ.head refl) refl tenth-IsNamed (omega arith) refl

abbrev member : List ℕ → ℕ → Bool
member [] v = false
member (x ∷ xs) v = member xs v || (x == v)

-- SQL that is not empty fails.
abbrev execute : Text → List ℕ → Option (List ℕ)
execute [] tx = some tx
execute (c ∷ cs) tx = none

abbrev table_db : Database
table_db = record {
  Db = List ℕ;
  Tx = List ℕ;
  has = member;
  tx_has = member;
  begin = λ table. some table;
  exec = execute;
  insert_version = λ n filename tx. some (n ∷ tx);
  commit = λ tx table. (true, tx);
}

same_table :
    {a b : List ℕ} → ◌≡◌ {A = Option (List ℕ)} (some a) (some b) → (v : ℕ) → member b v ≡ member a v
same_table {a} {b} h v = ap (λ o. member (unwrap o) v) (sym h)
  where
    unwrap : Option (List ℕ) → List ℕ
    unwrap none = []
    unwrap (some x) = x

executed : (sql : Text) (a b : List ℕ) → execute sql a ≡ some b → (v : ℕ) → member b v ≡ member a v
executed [] a b h v = same_table h v
executed (c ∷ cs) a b h v = absurd (ground (arith, h))

table_laws : Laws table_db (λ sql. Unit)
table_laws = record {
  begin-has = λ h v. same_table h v;
  exec-has = λ {sql} {tx} {tx'} ok h v. executed sql tx tx' h v;
  insert_version-has = λ h v. same_table h v;
  commit-has = λ tx db h v. refl;
  commit-keeps = λ tx db v h k. absurd (ground (arith, h));
}

pending_runs : (run table_db (second ∷ tenth ∷ []) (2 ∷ [])).0 ≡ none
unfolding run
pending_runs = refl

run_complete_example :
    All
      (λ (m : Migration). member (run table_db (second ∷ tenth ∷ []) (2 ∷ [])).1 m.version ≡ true)
      (second ∷ tenth ∷ [])
    × (run table_db (second ∷ tenth ∷ []) (run table_db (second ∷ tenth ∷ []) (2 ∷ [])).1
        ≡ (none, (run table_db (second ∷ tenth ∷ []) (2 ∷ [])).1))
run_complete_example =
    run_complete table_db (λ sql. Unit) table_laws (second ∷ tenth ∷ []) (2 ∷ []) (tt, (tt, tt))
      pending_runs
