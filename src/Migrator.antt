-- ===== src/Migrator.antt =====
-- go-core/migrator/runner.go: SQL migrations are found by their file names, ordered by version
-- (`loadMigrations`), and those that are pending applied one by one (the loop of `Run`).
pub mod Order
pub mod Runs
pub mod Files
use dota2_analysis.Base.{
  ℕ, ◌+◌, ◌-◌, ◌*◌, Bool, true, false, not, ◌&&◌, ◌||◌, ◌⊎◌, inl, inr, List, [], ◌∷◌, Option, none,
  some, ltb, leb, ◌==◌, if◌then◌else◌,
}
use dota2_analysis.Base.Text.{Text, Text-discrete, codes}

pub record Migration : Type 0 where
  pub version : ℕ
  pub filename : Text
  pub sql : Text

-- An entry of the directory; `content` is `none` where the file cannot be read.
pub record FsEntry : Type 0 where
  pub is_dir : Bool
  pub name : Text
  pub content : Option Text

pub data LoadError : Type 0 where
  read_dir_failed : LoadError
  bad_version read_failed : Text → LoadError
  duplicate_version : ℕ → LoadError

unfoldable pub is_digit : ℕ → Bool
is_digit c = leb 48 c && leb c 57

-- `[A-Za-z0-9_\-]`
unfoldable pub is_name_char : ℕ → Bool
unfolding is_digit
is_name_char c =
    is_digit c || (leb 65 c && leb c 90) || (leb 97 c && leb c 122) || c == 95 || c == 45

unfoldable pub all_name_chars : Text → Bool
unfolding is_name_char
all_name_chars [] = true
all_name_chars (c ∷ cs) = is_name_char c && all_name_chars cs

-- The digits at the start of a name, and what follows them.
unfoldable pub span_digits : Text → Text × Text
unfolding is_digit
span_digits [] = ([], [])
span_digits (c ∷ cs) =
    let (ds, rest) = span_digits cs in if is_digit c then (c ∷ ds, rest) else ([], c ∷ cs)

-- A name without its suffix ".sql".
unfoldable pub strip_sql : Text → Option Text
strip_sql [] = none
strip_sql (c ∷ cs) = elim (Text-discrete (c ∷ cs) (codes ".sql")) [
  | yes _ ↦ some []
  | no _ ↦ elim (strip_sql cs) [ none ↦ none | some stem ↦ some (c ∷ stem) ]
]

-- The group of `^(\d+)_[A-Za-z0-9_\-]+\.sql$`. The digits end at the first "_", and the class has no
-- ".", so a name matches in one way at most.
unfoldable pub version_digits : Text → Option Text
unfolding span_digits strip_sql all_name_chars
version_digits name =
    let (ds, rest) = span_digits name in
    elim ds [
      | [] ↦ none
      | d ∷ ds' ↦ elim rest [
        | [] ↦ none
        | c ∷ cs ↦ elim (strip_sql cs) [
          | none ↦ none
          | some [] ↦ none
          | some (b ∷ body) ↦ if c == 95 && all_name_chars (b ∷ body) then some (d ∷ ds') else none
        ]
      ]
    ]

abbrev digits_value : ℕ → Text → ℕ
digits_value v [] = v
digits_value v (c ∷ cs) = digits_value (v * 10 + (c - 48)) cs

-- `strconv.Atoi` of digits, which fails on a value that is no int.
unfoldable pub atoi : Text → Option ℕ
atoi ds = let v = digits_value 0 ds in if ltb v 9223372036854775808 then some v else none

abbrev Loaded : Type 0
Loaded = LoadError ⊎ List Migration

unfoldable pub cons_loaded : Migration → Loaded → Loaded
cons_loaded m (inl e) = inl e
cons_loaded m (inr ms) = inr (m ∷ ms)

-- The body of the loop of `loadMigrations` for one entry; `none` where it continues.
unfoldable pub read_entry : FsEntry → Option (LoadError ⊎ Migration)
unfolding version_digits atoi
read_entry e = if e.is_dir then none else elim (strip_sql e.name) [
  | none ↦ none
  | some _ ↦ elim (version_digits e.name) [
    | none ↦ none
    | some ds ↦ elim (atoi ds) [
      | none ↦ some (inl (bad_version e.name))
      | some v ↦ elim e.content [
        | none ↦ some (inl (read_failed e.name))
        | some sql ↦ some (inr (record { version = v; filename = e.name; sql = sql }))
      ]
    ]
  ]
]

unfoldable pub collect : List FsEntry → LoadError ⊎ List Migration
unfolding read_entry cons_loaded
collect [] = inr []
collect (e ∷ entries) =
    let rest = collect entries in
    elim (read_entry e) [
      | none ↦ rest
      | some (inl err) ↦ inl err
      | some (inr m) ↦ cons_loaded m rest
    ]

-- `sort.Slice` by version: equal versions may end up in any order, and are then rejected.
unfoldable pub insert_by_version : Migration → List Migration → List Migration
insert_by_version m [] = m ∷ []
insert_by_version m (n ∷ ms) =
    let rest = insert_by_version m ms in if ltb n.version m.version then n ∷ rest else m ∷ n ∷ ms

unfoldable pub sort_by_version : List Migration → List Migration
unfolding insert_by_version
sort_by_version [] = []
sort_by_version (m ∷ ms) = insert_by_version m (sort_by_version ms)

-- The loop that compares each migration with the one before.
unfoldable pub first_duplicate : Migration → List Migration → Option ℕ
first_duplicate m [] = none
first_duplicate m (n ∷ ms) = if n.version == m.version then some n.version else first_duplicate n ms

unfoldable pub check_versions : List Migration → LoadError ⊎ List Migration
unfolding first_duplicate
check_versions [] = inr []
check_versions (m ∷ ms) = elim (first_duplicate m ms) [
  | none ↦ inr (m ∷ ms)
  | some v ↦ inl (duplicate_version v)
]

-- `none` is a directory that cannot be read.
unfoldable pub load_migrations : Option (List FsEntry) → LoadError ⊎ List Migration
unfolding collect sort_by_version check_versions
load_migrations none = inl read_dir_failed
load_migrations (some entries) = elim (collect entries) [
  | inl e ↦ inl e
  | inr ms ↦ check_versions (sort_by_version ms)
]

-- The database: the versions that the table `schema_migrations` has, in the database and in a
-- transaction. An operation that fails has no transaction as its result; `insert_version` is the
-- `INSERT INTO schema_migrations` of `apply`, and false of `commit` is an error.
pub record Database : Type 1 where
  pub Db : Type 0
  pub Tx : Type 0
  pub has : Db → ℕ → Bool
  pub tx_has : Tx → ℕ → Bool
  pub begin : Db → Option Tx
  pub exec : (sql : Text) → Tx → Option Tx
  pub insert_version : ℕ → (filename : Text) → Tx → Option Tx
  pub commit : Tx → Db → Bool × Db

module _ (d : Database) where
  -- The deferred `Rollback` leaves the database as it was, where nothing has been committed.
  unfoldable pub commit_recorded : Option d.Tx → d.Db → Bool × d.Db
  commit_recorded none db = (false, db)
  commit_recorded (some tx) db = d.commit tx db

  unfoldable pub record_version : Migration → Option d.Tx → d.Db → Bool × d.Db
  unfolding commit_recorded
  record_version m none db = (false, db)
  record_version m (some tx) db = commit_recorded (d.insert_version m.version m.filename tx) db

  unfoldable pub exec_in : Migration → Option d.Tx → d.Db → Bool × d.Db
  unfolding record_version
  exec_in m none db = (false, db)
  exec_in m (some tx) db = record_version m (d.exec m.sql tx) db

  -- Whether the migration has been committed.
  unfoldable pub apply : Migration → d.Db → Bool × d.Db
  unfolding exec_in
  apply m db = exec_in m (d.begin db) db

  -- The loop of `Run`, with the versions that were applied when it started. The result is the
  -- migration that failed, if one did.
  unfoldable pub run_from : (ℕ → Bool) → List Migration → d.Db → Option Migration × d.Db
  unfolding apply
  run_from applied [] db = (none, db)
  run_from applied (m ∷ ms) db = elim (applied m.version) [
    | true ↦ run_from applied ms db
    | false ↦
        let (committed, db') = apply m db in
        elim committed [ true ↦ run_from applied ms db' | false ↦ (some m, db') ]
  ]

  unfoldable pub run : List Migration → d.Db → Option Migration × d.Db
  unfolding run_from
  run ms db = run_from (d.has db) ms db
