-- ===== src/Enrich/Run/Twice.antt =====
-- Two runs of the enrichment runner, one soon after the other, with the gate over Redis.
use mathlib.Core.List.{
  Mem, mem-cons_self, mem-cons_of_mem, mem-cons, not-mem-nil, Nodup, Nodup-cons, append_cancel_left,
}
use mathlib.Core.Logic.Or
use native.Mathlib.Nat.{le_refl, le_trans}
use dota2_analysis.Base.{
  ℕ, ◌+◌, ◌*◌, ◌/◌, ◌≤◌, ◌<◌, ◌≡◌, ◌≢◌, refl, sym, ap, subst, ◌∙◌, true, false, List, [], ◌∷◌,
  Option, none, some, arith,
}
use dota2_analysis.Base.Text.{Text, codes}
use dota2_analysis.Enrich.{RunSource, names}
use dota2_analysis.Enrich.Run.{
  RunError, Env, State, record_outcome, on_run, start_source, on_gate, run_one, and_next, turn, run,
}
use dota2_analysis.Gate.{
  second, minute, RunOutcome, interval, Config, Stored, nil, RedisClient, key, is_due, should_run,
  record_run, redis_gate,
}
use dota2_analysis.Gate.Ages.{Expires, due, should_run-record_run}

-- Redis answers every SET, and a SET of one key leaves the others.
pub record Keeps (r : RedisClient) : Type 0 where
  pub expires : Expires r
  pub set_ok :
      (now : ℕ) (k : Text) (v : Stored) (ttl : ℕ) (db : r.Db) → (r.set now k v ttl db).0 ≡ true
  pub get_set_ne :
      (now later : ℕ) (k j : Text) (v : Stored) (ttl : ℕ) (db : r.Db)
      → k ≢ j
      → r.get later j (r.set now k v ttl db).1 ≡ r.get later j db

-- The clock does not go back while a source runs, and nobody cancels the context.
pub record IsQuiet (env : Env) : Type 0 where
  pub forward : (s : RunSource) (w : env.World) → env.now w ≤ env.now (env.run_source s w).1
  pub live : (w : env.World) → env.ctx_err w ≡ none

key-injective : (cfg : Config) (a b : Text) → key cfg a ≡ key cfg b → a ≡ b
unfolding key
key-injective cfg a b e = append_cancel_left (codes ":") a b (
    append_cancel_left _ _ _
      (append_cancel_left (codes ":") _ _ (append_cancel_left cfg.prefix _ _ e)))

module _ (env : Env) (r : RedisClient) (cfg : Config) where
  abbrev St : Type 0
  St = State env (redis_gate r cfg)

  -- A source that is started is recorded, whatever its answer.
  start_source_records :
      (s : RunSource) (st : St)
      → (o : RunOutcome) × (o.at ≡ env.now st.world)
        × ((start_source env (redis_gate r cfg) s st).1.world ≡ (env.run_source s st.world).1)
        × ((start_source env (redis_gate r cfg) s st).1.store
            ≡ (record_run r cfg (env.now (env.run_source s st.world).1) s.name o st.store).1)
  unfolding start_source on_run record_outcome
  start_source_records s st = go (env.run_source s st.world).0 refl
    where
      go :
          (answer : Option Text)
          → (env.run_source s st.world).0 ≡ answer
          → (o : RunOutcome) × (o.at ≡ env.now st.world)
            × ((start_source env (redis_gate r cfg) s st).1.world ≡ (env.run_source s st.world).1)
            × ((start_source env (redis_gate r cfg) s st).1.store
                ≡ (record_run r cfg (env.now (env.run_source s st.world).1) s.name o st.store).1)
      go none e = (
        record { success = true; err = []; at = env.now st.world },
        refl,
        ground arith,
        ground arith,
      )
      go (some x) e = (
        record { success = false; err = x; at = env.now st.world },
        refl,
        ground arith,
        ground arith,
      )

and_next-none :
    (env : Env) (r : RedisClient) (cfg : Config) (x : Option RunError × St env r cfg)
    (next : St env r cfg → Option RunError × St env r cfg) (st : St env r cfg)
    → and_next env (redis_gate r cfg) x next ≡ (none, st)
    → next x.1 ≡ (none, st)
unfolding and_next
and_next-none env r cfg (some e, y) next st h =
    absurd (let bad : ◌≡◌ {A = Option RunError} (some e) none = ap (λ z. z.0) h in cc)
and_next-none env r cfg (none, y) next st h = h

-- The time `t` is before the age of a record made since `b`, to the second, and before the end of
-- the pause after a failure.
abbrev pub IsSoon : Config → (b t : ℕ) → Type 0
IsSoon cfg b t = (t < b / second * second + cfg.min_age) × (t < b + 5 * minute)

module _ (env : Env) (r : RedisClient) (cfg : Config) (keeps : Keeps r) (quiet : IsQuiet env)
    (mode : cfg.mode ≡ interval) where
  abbrev after : RunSource → St env r cfg → St env r cfg
  after s st = (start_source env (redis_gate r cfg) s st).1

  should_run_interval :
      (t : ℕ) (n : Text) (db : r.Db)
      → should_run r cfg t n db ≡ is_due cfg t (r.get t (key cfg n) db)
  unfolding should_run
  should_run_interval t n db = rw mode refl

  start_source_frame :
      (s : RunSource) (st : St env r cfg) (n : Text) (t : ℕ)
      → n ≢ s.name
      → r.get t (key cfg n) (after s st).store ≡ r.get t (key cfg n) st.store
  unfolding record_run
  start_source_frame s st n t other =
      let (o, _, _, stored) = start_source_records env r cfg s st in
      ap (r.get t (key cfg n)) stored
      ∙ keeps.get_set_ne _ t (key cfg s.name) (key cfg n) _ _ st.store
          (λ e. other (sym (key-injective cfg s.name n e)))

  start_source_forward :
      (s : RunSource) (st : St env r cfg) → env.now st.world ≤ env.now (after s st).world
  start_source_forward s st =
      let (o, _, moved, _) = start_source_records env r cfg s st in
      subst (λ w. env.now st.world ≤ env.now w) (sym moved) (quiet.forward s st.world)

  start_source_blocks :
      (s : RunSource) (st : St env r cfg) (t : ℕ)
      → env.now (after s st).world ≤ t
      → IsSoon cfg (env.now st.world) t
      → should_run r cfg t s.name (after s st).store ≡ some false
  unfolding record_run
  start_source_blocks s st t late soon =
      let (o, began, moved, stored) = start_source_records env r cfg s st in
      let since = env.now (env.run_source s st.world).1 in
      let passed : since ≤ t = subst (λ w. env.now w ≤ t) moved late in
      let at_le : o.at ≤ since = subst (λ b. b ≤ since) (sym began) (quiet.forward s st.world) in
      let not_due : due cfg o since t ≡ false =
        not-due o since t mode (subst (λ b. IsSoon cfg b t) (sym began) soon) at_le in
      ap (should_run r cfg t s.name) stored
      ∙ should_run-record_run r cfg keeps.expires s.name o since t st.store at_le passed
          (keeps.set_ok since _ _ _ st.store)
      ∙ ap some not_due
    where
      not-due :
          (o : RunOutcome) (since t : ℕ)
          → cfg.mode ≡ interval
          → IsSoon cfg o.at t
          → o.at ≤ since
          → due cfg o since t ≡ false
      not-due o since t m soon le = ground arith

  turn_fresh :
      (s : RunSource) (st : St env r cfg)
      → r.get (env.now st.world) (key cfg s.name) st.store ≡ nil
      → turn env (redis_gate r cfg) s (env.ctx_err st.world) st
        ≡ start_source env (redis_gate r cfg) s st
  unfolding turn run_one on_gate is_due
  turn_fresh s st fresh =
      let yes_due : should_run r cfg (env.now st.world) s.name st.store ≡ some true =
        should_run_interval _ s.name st.store ∙ ap (is_due cfg (env.now st.world)) fresh in
      rw (quiet.live st.world, turn) (rw (yes_due, on_gate) refl)

  turn_blocked :
      (s : RunSource) (st : St env r cfg)
      → should_run r cfg (env.now st.world) s.name st.store ≡ some false
      → turn env (redis_gate r cfg) s (env.ctx_err st.world) st ≡ (none, st)
  unfolding turn run_one on_gate
  turn_blocked s st blocked = rw (quiet.live st.world, turn) (rw (blocked, on_gate) refl)

  run_blocked :
      (l : List RunSource) (st : St env r cfg)
      → ((n : Text) → Mem n (names l) → should_run r cfg (env.now st.world) n st.store ≡ some false)
      → run env (redis_gate r cfg) l st ≡ (none, st)
  unfolding run and_next
  run_blocked [] st blocked = refl
  run_blocked (s ∷ l) st blocked =
      rw (turn_blocked s st (blocked s.name mem-cons_self), and_next)
        (run_blocked l st (λ n i. blocked n (mem-cons_of_mem s.name i)))

  IsSoon-mono : (b b' t : ℕ) → b ≤ b' → IsSoon cfg b t → IsSoon cfg b' t
  IsSoon-mono b b' t le soon = (omega arith, omega arith)

  -- No record of these sources is in Redis.
  abbrev Fresh : List RunSource → St env r cfg → Type 0
  Fresh l st = (n : Text) → Mem n (names l) → (t : ℕ) → r.get t (key cfg n) st.store ≡ nil

  record FirstRun (l : List RunSource) (st st' : St env r cfg) : Type 0 where
    forward : env.now st.world ≤ env.now st'.world
    frame :
        (n : Text)
        → ¬ Mem n (names l)
        → (t : ℕ) → r.get t (key cfg n) st'.store ≡ r.get t (key cfg n) st.store
    blocks :
        IsSoon cfg (env.now st.world) (env.now st'.world)
        → (n : Text) → Mem n (names l)
        → should_run r cfg (env.now st'.world) n st'.store ≡ some false

  run_step :
      (s : RunSource) (l : List RunSource) (st st' : St env r cfg)
      → r.get (env.now st.world) (key cfg s.name) st.store ≡ nil
      → run env (redis_gate r cfg) (s ∷ l) st ≡ (none, st')
      → run env (redis_gate r cfg) l (after s st) ≡ (none, st')
  unfolding run
  run_step s l st st' fresh h =
      and_next-none env r cfg (start_source env (redis_gate r cfg) s st)
        (run env (redis_gate r cfg) l) st'
        (subst (λ x. and_next env (redis_gate r cfg) x (run env (redis_gate r cfg) l) ≡ (none, st'))
          (turn_fresh s st fresh) h)

  blocked_here :
      (s : RunSource) (l : List RunSource) (st st' : St env r cfg)
      → ¬ Mem s.name (names l)
      → FirstRun l (after s st) st'
      → IsSoon cfg (env.now st.world) (env.now st'.world)
      → should_run r cfg (env.now st'.world) s.name st'.store ≡ some false
  blocked_here s l st st' out ih soon =
      let t = env.now st'.world in
      should_run_interval t s.name st'.store
      ∙ ap (is_due cfg t) (ih.frame s.name out t)
      ∙ sym (should_run_interval t s.name (after s st).store)
      ∙ start_source_blocks s st t ih.forward soon

  first_run :
      (l : List RunSource) (st st' : St env r cfg)
      → Nodup (names l)
      → Fresh l st
      → run env (redis_gate r cfg) l st ≡ (none, st')
      → FirstRun l st st'
  unfolding run
  first_run [] st st' distinct fresh h =
      let same : st ≡ st' = ap (λ z. z.1) h in
      record {
        forward = subst (λ x. env.now st.world ≤ env.now x.world) same (le_refl _);
        frame = λ n _ t. ap (λ x. r.get t (key cfg n) x.store) (sym same);
        blocks = λ _ n i. absurd (not-mem-nil i);
      }
  first_run (s ∷ l) st st' distinct fresh h =
      let (out, apart) = Nodup-cons.0 distinct in
      let other = λ (n : Text) (i : Mem n (names l)) (e : n ≡ s.name).
        out (subst (λ m. Mem m (names l)) e i) in
      let ih =
        first_run l (after s st) st' apart
          (λ n i t. start_source_frame s st n t (other n i) ∙ fresh n (mem-cons_of_mem s.name i) t)
          (run_step s l st st' (fresh s.name mem-cons_self (env.now st.world)) h) in
      let moved = start_source_forward s st in
      record {
        forward = le_trans moved ih.forward;
        frame = λ n absent t.
            ih.frame n (λ i. absent (mem-cons_of_mem s.name i)) t
            ∙ start_source_frame s st n t
                (λ e. absent (subst (λ m. Mem m (names (s ∷ l))) (sym e) mem-cons_self));
        blocks = λ soon n i.
            Or.elim (hlevel) (mem-cons.0 i)
              (λ e.
                subst (λ m. should_run r cfg (env.now st'.world) m st'.store ≡ some false) (sym e)
                  (blocked_here s l st st' out ih soon))
              (ih.blocks (IsSoon-mono _ _ _ moved soon) n);
      }

  -- Let the gate be in the mode Interval, and let Redis hold no record of any of the sources, answer
  -- every SET, keep what is set until it expires, and keep the keys apart. When a run of sources with
  -- distinct names has returned no error, and has taken less than the minimal age (to the second) and
  -- than five minutes, another run of them returns no error, starts no source and changes nothing,
  -- also where sources that are not critical have failed.
  pub run-run :
      (sources : List RunSource) (st st' : St env r cfg)
      → Nodup (names sources)
      → Fresh sources st
      → run env (redis_gate r cfg) sources st ≡ (none, st')
      → IsSoon cfg (env.now st.world) (env.now st'.world)
      → run env (redis_gate r cfg) sources st' ≡ (none, st')
  run-run sources st st' distinct fresh h soon =
      run_blocked sources st' ((first_run sources st st' distinct fresh h).blocks soon)
