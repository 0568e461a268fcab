-- ===== src/Migrator/Runs.antt =====
-- What a run of the migrations leaves in the database.
use mathlib.Core.List.{Memᴰ}
use dota2_analysis.Base.{
  ℕ, ◌≡◌, refl, sym, ap, ◌∙◌, inl, inr, Bool, true, false, ◌||◌, List, [], ◌∷◌, Option, none, some,
  ◌==◌, Bool-cases, arith, All,
}
use dota2_analysis.Base.Text.{Text}
use dota2_analysis.Migrator.{
  Migration, Database, commit_recorded, record_version, exec_in, apply, run_from, run,
}

module _ (d : Database) (applied : ℕ → Bool) (m : Migration) (ms : List Migration) (db : d.Db) where
  run_from_skip :
      applied m.version ≡ true → run_from d applied (m ∷ ms) db ≡ run_from d applied ms db
  unfolding run_from
  run_from_skip skip = rw (skip, run_from) refl

  run_from-apply :
      applied m.version ≡ false
      → (apply d m db).0 ≡ true
      → run_from d applied (m ∷ ms) db ≡ run_from d applied ms (apply d m db).1
  unfolding run_from
  run_from-apply due ok = rw (due, run_from) (rw ok refl)

  run_from_stop :
      applied m.version ≡ false
      → (apply d m db).0 ≡ false
      → run_from d applied (m ∷ ms) db ≡ (some m, (apply d m db).1)
  unfolding run_from
  run_from_stop due bad = rw (due, run_from) (rw bad refl)

All-of_mem :
    (P : Migration → Type 0) (ms : List Migration) → ((m : Migration) → Memᴰ m ms → P m) → All P ms
All-of_mem P [] f = tt
All-of_mem P (m ∷ ms) f = (f m (Memᴰ.head refl), All-of_mem P ms (λ n i. f n (Memᴰ.tail i)))

run_from_known :
    (d : Database) (applied : ℕ → Bool) (ms : List Migration) (db : d.Db)
    → ((m : Migration) → Memᴰ m ms → applied m.version ≡ true)
    → run_from d applied ms db ≡ (none, db)
unfolding run_from
run_from_known d applied [] db known = refl
run_from_known d applied (m ∷ ms) db known =
    run_from_skip d applied m ms db (known m (Memᴰ.head refl))
    ∙ run_from_known d applied ms db (λ n i. known n (Memᴰ.tail i))

-- A transaction starts with the versions of the database, harmless SQL leaves the table of versions
-- alone, and a commit that succeeds brings the versions of the transaction to the database. A
-- commit that fails takes no version away.
pub record Laws (d : Database) (IsHarmless : Text → Type 0) : Type 0 where
  pub begin-has :
      {db : d.Db} {tx : d.Tx} → d.begin db ≡ some tx → (v : ℕ) → d.tx_has tx v ≡ d.has db v
  pub exec-has :
      {sql : Text} {tx tx' : d.Tx}
      → IsHarmless sql
      → d.exec sql tx ≡ some tx'
      → (v : ℕ) → d.tx_has tx' v ≡ d.tx_has tx v
  pub insert_version-has :
      {n : ℕ} {filename : Text} {tx tx' : d.Tx}
      → d.insert_version n filename tx ≡ some tx'
      → (v : ℕ) → d.tx_has tx' v ≡ (d.tx_has tx v || (n == v))
  pub commit-has :
      (tx : d.Tx) (db : d.Db)
      → (d.commit tx db).0 ≡ true
      → (v : ℕ) → d.has (d.commit tx db).1 v ≡ d.tx_has tx v
  pub commit-keeps :
      (tx : d.Tx) (db : d.Db) (v : ℕ)
      → (d.commit tx db).0 ≡ false
      → d.has db v ≡ true
      → d.has (d.commit tx db).1 v ≡ true

-- What `apply` does to the table of versions.
abbrev Records : (d : Database) → ℕ → d.Db → Bool × d.Db → Type 0
Records d n db r =
    (r.0 ≡ true → (v : ℕ) → d.has r.1 v ≡ (d.has db v || (n == v)))
    × (r.0 ≡ false → (v : ℕ) → d.has db v ≡ true → d.has r.1 v ≡ true)

module _ (d : Database) {IsHarmless : Text → Type 0} (w : Laws d IsHarmless) (m : Migration)
    (db : d.Db) (good : IsHarmless m.sql) where
  refused : Records d m.version db (false, db)
  refused = (λ h. absurd (ground (arith, h)), λ h v k. k)

  commit_recorded-Records :
      (tx : d.Tx)
      → ((v : ℕ) → d.tx_has tx v ≡ d.has db v)
      → (o : Option d.Tx) → d.insert_version m.version m.filename tx ≡ o
      → Records d m.version db (commit_recorded d o db)
  unfolding commit_recorded
  commit_recorded-Records tx same none e = refused
  commit_recorded-Records tx same (some tx') e = (
    λ h v.
        w.commit-has tx' db h v
        ∙ w.insert_version-has e v
        ∙ ap (λ b. b || (m.version == v)) (same v),
    λ h v k. w.commit-keeps tx' db v h k,
  )

  record_version-Records :
      (o : Option d.Tx)
      → ((tx : d.Tx) → o ≡ some tx → (v : ℕ) → d.tx_has tx v ≡ d.has db v)
      → Records d m.version db (record_version d m o db)
  unfolding record_version
  record_version-Records none same = refused
  record_version-Records (some tx) same =
      commit_recorded-Records tx (same tx refl) (d.insert_version m.version m.filename tx) refl

  exec_in-Records : (o : Option d.Tx) → d.begin db ≡ o → Records d m.version db (exec_in d m o db)
  unfolding exec_in
  exec_in-Records none e = refused
  exec_in-Records (some tx) e =
      record_version-Records (d.exec m.sql tx) (λ tx' h v. w.exec-has good h v ∙ w.begin-has e v)

  apply-Records : Records d m.version db (apply d m db)
  unfolding apply
  apply-Records = exec_in-Records (d.begin db) refl

module _ (d : Database) (IsHarmless : Text → Type 0) (w : Laws d IsHarmless) where
  abbrev pub AllHarmless : List Migration → Type 0
  AllHarmless = All (λ (m : Migration). IsHarmless m.sql)

  -- A run never takes a version out of the table.
  run_from_keeps :
      (applied : ℕ → Bool) (ms : List Migration) (db : d.Db) (v : ℕ)
      → AllHarmless ms
      → d.has db v ≡ true
      → d.has (run_from d applied ms db).1 v ≡ true
  unfolding run_from
  run_from_keeps applied [] db v good h = h
  run_from_keeps applied (m ∷ ms) db v good h = elim (Bool-cases (applied m.version)) [
    | inl skip ↦
        ap (λ r. d.has r.1 v) (run_from_skip d applied m ms db skip)
        ∙ run_from_keeps applied ms db v good.1 h
    | inr due ↦ elim (Bool-cases (apply d m db).0) [
      | inl ok ↦
          ap (λ r. d.has r.1 v) (run_from-apply d applied m ms db due ok)
          ∙ run_from_keeps applied ms (apply d m db).1 v good.1
              (ground (arith, (apply-Records d w m db good.0).0 ok v))
      | inr bad ↦
          ap (λ r. d.has r.1 v) (run_from_stop d applied m ms db due bad)
          ∙ (apply-Records d w m db good.0).1 bad v h
    ]
  ]

  -- The step of the next lemma, for a migration that is in the table of `db'` from now on.
  recorded :
      (applied : ℕ → Bool) (n m : Migration) (ms : List Migration) (db' : d.Db)
      → AllHarmless ms
      → ((v : ℕ) → applied v ≡ true → d.has db' v ≡ true)
      → d.has db' n.version ≡ true
      → (Memᴰ m ms → d.has (run_from d applied ms db').1 m.version ≡ true)
      → Memᴰ m (n ∷ ms)
      → d.has (run_from d applied ms db').1 m.version ≡ true
  recorded applied n m ms db' good known now rest (Memᴰ.head e) =
      run_from_keeps applied ms db' m.version good
        (ap (λ (x : Migration). d.has db' x.version) e ∙ now)
  recorded applied n m ms db' good known now rest (Memᴰ.tail i) = rest i

  run_from_complete :
      (applied : ℕ → Bool) (ms : List Migration) (db : d.Db)
      → AllHarmless ms
      → ((v : ℕ) → applied v ≡ true → d.has db v ≡ true)
      → (run_from d applied ms db).0 ≡ none
      → (m : Migration) → Memᴰ m ms
      → d.has (run_from d applied ms db).1 m.version ≡ true
  run_from_complete applied [] db good known e m i = elim i [ ]
  run_from_complete applied (n ∷ ms) db good known e m i = elim (Bool-cases (applied n.version)) [
    | inl skip ↦
        let eq = run_from_skip d applied n ms db skip in
        ap (λ r. d.has r.1 m.version) eq
        ∙ recorded applied n m ms db good.1 known (known n.version skip)
            (run_from_complete applied ms db good.1 known (sym (ap (λ r. r.0) eq) ∙ e) m) i
    | inr due ↦ elim (Bool-cases (apply d n db).0) [
      | inl ok ↦
          let db' = (apply d n db).1 in
          let eq = run_from-apply d applied n ms db due ok in
          let known' : (v : ℕ) → applied v ≡ true → d.has db' v ≡ true =
            λ v h. ground (arith, (apply-Records d w n db good.0).0 ok v, known v h) in
          ap (λ r. d.has r.1 m.version) eq
          ∙ recorded applied n m ms db' good.1 known'
              (ground (arith, (apply-Records d w n db good.0).0 ok n.version))
              (run_from_complete applied ms db' good.1 known' (sym (ap (λ r. r.0) eq) ∙ e) m) i
      | inr bad ↦
          let wrong : ◌≡◌ {A = Option Migration} (some n) none =
            sym (ap (λ r. r.0) (run_from_stop d applied n ms db due bad)) ∙ e in
          cc
    ]
  ]

  -- Let transactions start with the versions of the database, the SQL of these migrations leave the
  -- table of versions alone, and commits bring the versions of a transaction to the database. Then
  -- after a run without an error the version of every migration is in the table, and another run
  -- changes nothing.
  pub run_complete :
      (ms : List Migration) (db : d.Db)
      → AllHarmless ms
      → (run d ms db).0 ≡ none
      → All (λ (m : Migration). d.has (run d ms db).1 m.version ≡ true) ms
        × (run d ms (run d ms db).1 ≡ (none, (run d ms db).1))
  unfolding run
  run_complete ms db good e =
      let all = run_from_complete (d.has db) ms db good (λ v h. h) e in
      (All-of_mem _ ms all, run_from_known d (d.has (run d ms db).1) ms (run d ms db).1 all)
