-- ===== src/Doer/Runs.antt =====
-- Induction over the attempts of `Do`: from what each attempt, pause and direct request keeps to
-- what the whole loop yields.
use dota2_analysis.Base.{
  ℕ, zero, suc, ◌+◌, ◌≡◌, refl, ◌⊎◌, inl, inr, Bool, true, false, List, Bool-cases, arith,
}
use dota2_analysis.Doer.{
  ProxyPool, Net, Config, State, DoError, ctx_done, Done, response, failed_with, Next, stop,
  at_once, after_backoff, next_of, do_direct, do_with_lease, do_from,
}

-- The loop stops with a response only if the attempt ended in it.
next_of_stop :
    (c : Bool) (d d' : Done)
    → next_of c d ≡ stop d'
    → (d ≡ d') ⊎ ((e : DoError) × (d' ≡ failed_with e))
unfolding next_of
next_of_stop c (response status b) d' e = inl (cc)
next_of_stop true (failed_with e') d' e = inr (by_value d' e)
  where
    by_value :
        (d' : Done) → next_of true (failed_with e') ≡ stop d' → (e : DoError) × (d' ≡ failed_with e)
    by_value (failed_with e) h = (e, refl)
    by_value (response status b) h = absurd (ground arith)
next_of_stop false (failed_with e') d' e = inr (by_value d' e)
  where
    by_value :
        (d' : Done)
        → next_of false (failed_with e') ≡ stop d'
        → (e : DoError) × (d' ≡ failed_with e)
    by_value (failed_with e) h = (e, refl)
    by_value (response status b) h = absurd (ground arith)

-- `Q k s` holds where `k` attempts are left; `F` is what is shown of the result.
module _ (net : Net) (pools : ProxyPool) (cfg : Config) (Q : ℕ → State net pools → Type 0)
    (F : Done × State net pools → Type 0)
    (fails : (k : ℕ) (e : DoError) (s : State net pools) → Q k s → F (failed_with e, s))
    (attempts : (k n : ℕ) (s : State net pools)
      → Q (suc k) s
      → Q k (do_with_lease net pools cfg n s).1)
    (answers : (k n : ℕ) (s : State net pools) (status : ℕ) (b : List ℕ)
      → Q (suc k) s
      → (do_with_lease net pools cfg n s).0 ≡ response status b
      → F (response status b, (do_with_lease net pools cfg n s).1))
    (waits : (k : ℕ) (s : State net pools) → Q k s → Q k (record s { world = net.wait s.world }))
    (directs : (k : ℕ) (s : State net pools)
      → cfg.allow_direct ≡ true
      → Q k s
      → F (do_direct net pools cfg s)) where
  do_from-zero :
      (n : ℕ) (e : DoError) (s : State net pools) → Q 0 s → F (do_from net pools cfg 0 n e s)
  unfolding do_from
  do_from-zero n e s q = elim (Bool-cases cfg.allow_direct) [
    | inl direct ↦ rw (direct, do_from) (directs 0 s direct q)
    | inr indirect ↦ rw (indirect, do_from) (fails 0 e s q)
  ]

  -- What the rest of the loop shows, carried over one attempt.
  do_from-suc :
      (k n : ℕ) (last : DoError) (s : State net pools)
      → ((e : DoError) (s' : State net pools) → Q k s' → F (do_from net pools cfg k (n + 1) e s'))
      → Q (suc k) s
      → F (do_from net pools cfg (suc k) n last s)
  unfolding do_from
  do_from-suc k n last s ih q = elim (Bool-cases (net.cancelled s.world)) [
    | inl over ↦ rw (over, do_from) (fails (suc k) ctx_done s q)
    | inr running ↦ rw (running, do_from) (by_next (next_of (net.cancelled s'.world) d) refl)
  ]
    where
      d : Done
      d = (do_with_lease net pools cfg n s).0

      s' : State net pools
      s' = (do_with_lease net pools cfg n s).1

      q' : Q k s'
      q' = attempts k n s q

      paused : State net pools
      paused = record s' { world = net.wait s'.world }

      by_next :
          (x : Next)
          → next_of (net.cancelled s'.world) d ≡ x
          → F (elim x [
            | stop d' ↦ (d', s')
            | at_once e ↦ do_from net pools cfg k (n + 1) e s'
            | after_backoff e ↦
                let w = net.wait s'.world in
                elim (net.cancelled w) [
                  | true ↦ (failed_with ctx_done, record s' { world = w })
                  | false ↦ do_from net pools cfg k (n + 1) e (record s' { world = w })
                ]
          ])
      by_next (stop (failed_with e)) h = fails k e s' q'
      by_next (stop (response status b)) h = elim (next_of_stop _ d (response status b) h) [
        | inl same ↦ answers k n s status b q same
        | inr (e, wrong) ↦ cc
      ]
      by_next (at_once e) h = ih e s' q'
      by_next (after_backoff e) h = elim (Bool-cases (net.cancelled paused.world)) [
        | inl over ↦ rw over (fails k ctx_done paused (waits k s' q'))
        | inr running ↦ rw running (ih e paused (waits k s' q'))
      ]

  pub do_from-induct :
      (k n : ℕ) (e : DoError) (s : State net pools) → Q k s → F (do_from net pools cfg k n e s)
  do_from-induct zero n e s q = do_from-zero n e s q
  do_from-induct (suc k) n e s q = do_from-suc k n e s (do_from-induct k (n + 1)) q
