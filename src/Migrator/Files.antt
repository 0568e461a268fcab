-- ===== src/Migrator/Files.antt =====
-- Which files `loadMigrations` takes, against the names that the pattern of the code describes.
use mathlib.Core.List.{Mem, Memᴰ, append_assoc}
use mathlib.Core.List.Perm
use dota2_analysis.Base.{
  ℕ, ◌≤◌, ◌<◌, ◌≡◌, ◌≢◌, refl, sym, ap, subst, ◌∙◌, ◌⊎◌, inl, inr, List, [], ◌∷◌, ◌++◌, Option,
  none, some, true, false, length, length-append, All, arith, ℕ_discrete,
}
use dota2_analysis.Base.Text.{Text, Text-discrete, codes}
use dota2_analysis.Migrator.{
  Migration, FsEntry, LoadError, is_digit, is_name_char, all_name_chars, span_digits, strip_sql,
  version_digits, digits_value, atoi, cons_loaded, read_entry, collect, load_migrations,
}
use dota2_analysis.Migrator.Order.{IsIncreasing, load_migrations-IsIncreasing}

abbrev pub IsDigit : ℕ → Type 0
IsDigit c = (48 ≤ c) × (c ≤ 57)

-- A digit, a letter, "_" or "-".
abbrev pub IsNameChar : ℕ → Type 0
IsNameChar c = IsDigit c ⊎ ((65 ≤ c) × (c ≤ 90)) ⊎ ((97 ≤ c) × (c ≤ 122)) ⊎ (c ≡ 95) ⊎ (c ≡ 45)

-- Digits, "_", characters of a name, and ".sql".
abbrev pub file_name : (ds body : Text) → Text
file_name ds body = (ds ++ 95 ∷ body) ++ codes ".sql"

is_digit-IsDigit : (c : ℕ) → IsDigit c → is_digit c ≡ true
unfolding is_digit
is_digit-IsDigit c h = ground arith

is_name_char-IsNameChar : (c : ℕ) → IsNameChar c → is_name_char c ≡ true
unfolding is_name_char is_digit
is_name_char-IsNameChar c h = ground arith

all_name_chars-All : (cs : Text) → All IsNameChar cs → all_name_chars cs ≡ true
unfolding all_name_chars
all_name_chars-All [] h = refl
all_name_chars-All (c ∷ cs) h = rw (is_name_char-IsNameChar c h.0) (all_name_chars-All cs h.1)

span_digits-append :
    (ds rest : Text) → All IsDigit ds → span_digits (ds ++ 95 ∷ rest) ≡ (ds, 95 ∷ rest)
unfolding span_digits is_digit
span_digits-append [] rest h = refl
span_digits-append (d ∷ ds) rest h =
    rw (is_digit-IsDigit d h.0)
      (ap (λ (r : Text × Text). (d ∷ r.0, r.1)) (span_digits-append ds rest h.1))

strip_sql-suffix : strip_sql (codes ".sql") ≡ some []
unfolding strip_sql Text-discrete ℕ_discrete
strip_sql-suffix = refl

longer : (c : ℕ) (cs : Text) → c ∷ cs ++ codes ".sql" ≢ codes ".sql"
longer c cs e = omega (arith, length-append cs (codes ".sql"), ap length e)

strip_sql-append : (cs : Text) → strip_sql (cs ++ codes ".sql") ≡ some cs
unfolding strip_sql
strip_sql-append [] = strip_sql-suffix
strip_sql-append (c ∷ cs) = ground (arith, strip_sql-append cs, longer c cs)

-- The name of a migration, whose version has these digits.
abbrev pub IsNamed : (name ds body : Text) → Type 0
IsNamed name [] body = ⊥
IsNamed name ds [] = ⊥
IsNamed name (d ∷ ds) (b ∷ body) =
    (name ≡ file_name (d ∷ ds) (b ∷ body)) × All IsDigit (d ∷ ds) × All IsNameChar (b ∷ body)

version_digits-file_name :
    (d b : ℕ) (ds body : Text)
    → All IsDigit (d ∷ ds)
    → All IsNameChar (b ∷ body)
    → version_digits (file_name (d ∷ ds) (b ∷ body)) ≡ some (d ∷ ds)
unfolding version_digits
version_digits-file_name d b ds body digits chars =
    let split : span_digits (file_name (d ∷ ds) (b ∷ body))
        ≡ (d ∷ ds, 95 ∷ ((b ∷ body) ++ codes ".sql")) =
      ap span_digits (append_assoc (d ∷ ds) (95 ∷ b ∷ body) (codes ".sql"))
      ∙ span_digits-append (d ∷ ds) ((b ∷ body) ++ codes ".sql") digits in
    rw (split, version_digits)
      (rw split (
        rw (strip_sql-append (b ∷ body), version_digits)
          (rw (all_name_chars-All (b ∷ body) chars, version_digits) refl)))

strip_sql-file_name : (ds body : Text) → strip_sql (file_name ds body) ≡ some (ds ++ 95 ∷ body)
strip_sql-file_name ds body = strip_sql-append (ds ++ 95 ∷ body)

abbrev pub migration_of : (name ds sql : Text) → Migration
migration_of name ds sql = record { version = digits_value 0 ds; filename = name; sql = sql }

read_entry-migration_of :
    (e : FsEntry) (ds body sql : Text)
    → e.is_dir ≡ false
    → IsNamed e.name ds body
    → digits_value 0 ds < 9223372036854775808
    → e.content ≡ some sql
    → read_entry e ≡ some (inr (migration_of e.name ds sql))
unfolding read_entry atoi
read_entry-migration_of e [] body sql plain named fits readable = absurd named
read_entry-migration_of e (d ∷ ds) [] sql plain named fits readable = absurd named
read_entry-migration_of e (d ∷ ds) (b ∷ body) sql plain (name, digits, chars) fits readable =
    let stem = ap strip_sql name ∙ strip_sql-file_name (d ∷ ds) (b ∷ body) in
    let found = ap version_digits name ∙ version_digits-file_name d b ds body digits chars in
    let value : atoi (d ∷ ds) ≡ some (digits_value 0 (d ∷ ds)) = ground (arith, fits) in
    rw (plain, read_entry)
      (rw (stem, read_entry)
        (rw (found, read_entry) (rw (value, read_entry) (rw (readable, read_entry) refl))))

cons_loaded-inr :
    (m : Migration) (rest : LoadError ⊎ List Migration) (ms : List Migration)
    → cons_loaded m rest ≡ inr ms
    → (taken : List Migration) × (rest ≡ inr taken) × (m ∷ taken ≡ ms)
unfolding cons_loaded
cons_loaded-inr m (inl e) ms h = absurd (ground (arith, h))
cons_loaded-inr m (inr taken) ms h = (taken, refl, ground (arith, h))

-- The migrations of the other entries, and that of the first one, if it has one.
collect-cons :
    (x : FsEntry) (entries : List FsEntry) (ms : List Migration)
    (r : Option (LoadError ⊎ Migration))
    → read_entry x ≡ r
    → collect (x ∷ entries) ≡ inr ms
    → (taken : List Migration) × (collect entries ≡ inr taken)
      × ((m : Migration) → Memᴰ m taken → Memᴰ m ms)
      × ((m : Migration) → r ≡ some (inr m) → Memᴰ m ms)
unfolding collect
collect-cons x entries ms none e h =
    let same : collect (x ∷ entries) ≡ collect entries = rw (e, collect) refl in
    (ms, sym same ∙ h, λ m i. i, λ m k. absurd (ground (arith, k)))
collect-cons x entries ms (some (inl err)) e h =
    let failed : collect (x ∷ entries) ≡ inl err = rw (e, collect) refl in
    absurd (ground (arith, sym failed ∙ h))
collect-cons x entries ms (some (inr n)) e h =
    let added : collect (x ∷ entries) ≡ cons_loaded n (collect entries) = rw (e, collect) refl in
    let (taken, rest, all) = cons_loaded-inr n (collect entries) ms (sym added ∙ h) in
    (
      taken,
      rest,
      λ m i. subst (λ l. Memᴰ m l) all (Memᴰ.tail i),
      λ m k. subst (λ l. Memᴰ m l) all (Memᴰ.head (ground (arith, k))),
    )

collect-Memᴰ :
    (entries : List FsEntry) (ms : List Migration) (e : FsEntry) (m : Migration)
    → collect entries ≡ inr ms
    → Memᴰ e entries
    → read_entry e ≡ some (inr m)
    → Memᴰ m ms
collect-Memᴰ [] ms e m loads here reads = elim here [ ]
collect-Memᴰ (x ∷ entries) ms e m loads (Memᴰ.head same) reads =
    (collect-cons x entries ms (read_entry x) refl loads).3 m (ap read_entry (sym same) ∙ reads)
collect-Memᴰ (x ∷ entries) ms e m loads (Memᴰ.tail i) reads =
    let (taken, rest, keeps, first) = collect-cons x entries ms (read_entry x) refl loads in
    keeps m (collect-Memᴰ entries taken e m rest i reads)

-- Let `loadMigrations` return a list. A file of the directory whose name is a number below 2^63, "_",
-- letters, digits, "_" or "-", and ".sql", and which can be read, is in the list under the number as
-- its version, and the versions of the list are strictly increasing as numbers.
pub load_migrations_complete :
    (entries : List FsEntry) (ms : List Migration) (e : FsEntry) (ds body sql : Text)
    → load_migrations (some entries) ≡ inr ms
    → Memᴰ e entries
    → e.is_dir ≡ false
    → IsNamed e.name ds body
    → digits_value 0 ds < 9223372036854775808
    → e.content ≡ some sql
    → Mem (migration_of e.name ds sql) ms × IsIncreasing ms
load_migrations_complete entries ms e ds body sql loads here plain named fits readable =
    let (up, (found, collected, perm)) = load_migrations-IsIncreasing entries ms loads in
    let m : Migration = migration_of e.name ds sql in
    let taken : Memᴰ m found =
      collect-Memᴰ entries found e m collected here
        (read_entry-migration_of e ds body sql plain named fits readable) in
    ((Perm.mem_iff perm).0 (∣ taken ∣₁), up)
