-- ===== src/RedisQueue/Async/Doubled.antt =====
-- A stop and a start while a loop is between two waits.
use mathlib.Core.List.{append_assoc}
use dota2_analysis.Base.{
  ℕ, ◌+◌, ◌≡◌, sym, ap, subst, ◌∙◌, true, false, ◌||◌, List, [], ◌∷◌, ◌++◌, ◌==◌, arith,
}
use dota2_analysis.RedisQueue.Async.{
  Loop, running, waiting, System, fresh, enable_async_retry, stop_async_retry, Step, selects, Reach,
  next,
}
use dota2_analysis.RedisQueue.Async.Leaves.{IsTidy, fresh-IsTidy, Reach-IsTidy}

-- The queue after a stop and a start.
abbrev restarted : System → System
restarted s = record {
  started = true;
  stop_ch = s.made + 1;
  made = s.made + 1;
  closed = λ ch. ch == s.stop_ch || s.closed ch;
  loops = s.loops ++ running ∷ [];
}

enable-stop :
    (s : System) → s.started ≡ true → enable_async_retry (stop_async_retry s) ≡ restarted s
unfolding enable_async_retry stop_async_retry
enable-stop s on = ground (arith, on)

-- If StopAsyncRetry and EnableAsyncRetry are called while a loop is promoting retries, that loop and
-- the new one may both come to wait on one channel that is open: none of the two can leave, and both
-- go on to promote retries.
pub restart_doubles :
    {s : System} (xs : List Loop)
    → Reach fresh s
    → s.started ≡ true
    → s.loops ≡ xs ++ running ∷ []
    → (s' : System) × (ch : ℕ) × Reach (enable_async_retry (stop_async_retry s)) s'
      × (s'.closed ch ≡ false)
      × (s'.loops ≡ xs ++ waiting ch ∷ waiting ch ∷ [])
restart_doubles {s} xs r on e =
    let v : IsTidy s = Reach-IsTidy r fresh-IsTidy in
    let ch : ℕ = s.made + 1 in
    let first : System = record (restarted s) { loops = xs ++ waiting ch ∷ running ∷ [] } in
    let last : System = record first { loops = (xs ++ waiting ch ∷ []) ++ waiting ch ∷ [] } in
    let one : Step (restarted s) first =
      selects (restarted s) xs (running ∷ [])
        (ap (λ l. l ++ running ∷ []) e ∙ append_assoc xs (running ∷ []) (running ∷ [])) in
    let two : Step first last =
      selects first (xs ++ waiting ch ∷ []) []
        (sym (append_assoc xs (waiting ch ∷ []) (running ∷ []))) in
    (
      last,
      ch,
      subst (λ a. Reach a last) (sym (enable-stop s on))
          (next (restarted s) first last
            (next (restarted s) (restarted s) first (Reach.here (restarted s)) one) two),
      ground (arith, v.known, v.unmade ch (omega arith)),
      append_assoc xs (waiting ch ∷ []) (waiting ch ∷ []),
    )
