-- ===== src/Enrich/Run.antt =====
-- `Run` and `runOne` of go-ingestion/internal/enrich/runner.go: the sources run one
-- after the other, those that the gate finds due.
pub mod Twice
use dota2_analysis.Base.{
  ℕ, Bool, true, false, ◌⊎◌, inl, inr, List, [], ◌∷◌, Option, none, some, if◌then◌else◌,
}
use dota2_analysis.Base.Text.{Text}
use dota2_analysis.Enrich.{RunSource, SortError, sort_by_dependencies}
use dota2_analysis.Gate.{RunOutcome, RunGate}

pub data RunError : Type 0 where
  not_wired gate_check : RunError
  canceled run_failed : Text → RunError

-- What the sources and the context do to the rest of the world: a run of a source answers with an
-- error or with nil, `ctx_err` is the error of the context, and `now` the clock.
pub record Env : Type 1 where
  pub World : Type 0
  pub run_source : RunSource → World → Option Text × World
  pub ctx_err : World → Option Text
  pub now : World → ℕ

module _ (env : Env) (g : RunGate) where
  pub record State : Type 0 where
    pub world : env.World
    pub store : g.Store

module _ (env : Env) (g : RunGate) where
  -- An error of `RecordRun` is not returned.
  unfoldable pub record_outcome : Text → RunOutcome → State env g → State env g
  record_outcome name outcome st = record st {
    store = (g.record_run (env.now st.world) name outcome st.store).1;
  }

  -- What `runOne` does with the answer of a source that began at `start`.
  unfoldable pub on_run : RunSource → ℕ → Option Text → State env g → Option RunError × State env g
  unfolding record_outcome
  on_run s start none st =
      (none, record_outcome s.name (record { success = true; err = []; at = start }) st)
  on_run s start (some e) st =
      let st' = record_outcome s.name (record { success = false; err = e; at = start }) st in
      if s.critical then (some (run_failed e), st') else (none, st')

  unfoldable pub start_source : RunSource → State env g → Option RunError × State env g
  unfolding on_run
  start_source s st =
      let (answer, world) = env.run_source s st.world in
      on_run s (env.now st.world) answer (record st { world = world })

  unfoldable pub on_gate : RunSource → Option Bool → State env g → Option RunError × State env g
  unfolding start_source
  on_gate s none st = (some gate_check, st)
  on_gate s (some false) st = (none, st)
  on_gate s (some true) st = start_source s st

  unfoldable pub run_one : RunSource → State env g → Option RunError × State env g
  unfolding on_gate
  run_one s st = on_gate s (g.should_run (env.now st.world) s.name st.store) st

  unfoldable pub and_next :
      Option RunError × State env g
      → (State env g → Option RunError × State env g)
      → Option RunError × State env g
  and_next (some e, st) next = (some e, st)
  and_next (none, st) next = next st

  -- One turn of the loop of `Run`.
  unfoldable pub turn : RunSource → Option Text → State env g → Option RunError × State env g
  unfolding run_one
  turn s (some e) st = (some (canceled e), st)
  turn s none st = run_one s st

  -- `Run` of a runner that has its client and its gate.
  unfoldable pub run : List RunSource → State env g → Option RunError × State env g
  unfolding turn and_next
  run [] st = (none, st)
  run (s ∷ sources) st = and_next (turn s (env.ctx_err st.world) st) (run sources)

  -- `Run`; without a client or a gate it only fails.
  unfoldable pub run_wired :
      (wired : Bool) → List RunSource → State env g → Option RunError × State env g
  unfolding run
  run_wired wired sources st = if wired then run sources st else (some not_wired, st)
