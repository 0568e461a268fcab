-- ===== src/Doer/Attempts.antt =====
-- How many requests `Do` sends.
use dota2_analysis.Base.{
  ℕ, ◌+◌, ◌≤◌, ◌≡◌, not, ◌&&◌, Option, none, some, inl, inr, ltb, if◌then◌else◌, Bool-cases,
  Option-cases, arith,
}
use dota2_analysis.Base.Text.{Text}
use dota2_analysis.Proxy.{ctx_error, no_proxy, Result, ok, err}
use dota2_analysis.Doer.Clients.{Cache, get_client}
use dota2_analysis.Doer.{
  ProxyPool, Net, Config, State, do_direct, with_lease, on_acquired, do_with_lease, do_request,
}
use dota2_analysis.Doer.Runs.{do_from-induct}

-- `sent` counts the requests of a world: sending counts one, a pause counts none.
module _ (net : Net) (pools : ProxyPool) (cfg : Config) (sent : net.World → ℕ)
    (sent-send : (c : Option Text) (w : net.World) → sent (net.send c w).1 ≡ sent w + 1)
    (sent-wait : (w : net.World) → sent (net.wait w) ≡ sent w) where
  sent-do_direct :
      (s : State net pools) → sent (do_direct net pools cfg s).1.world ≤ sent s.world + 1
  unfolding do_direct
  sent-do_direct s = omega (arith, sent-send none s.world)

  sent-with_lease :
      (l : pools.L) (s : State net pools)
      → sent (with_lease net pools cfg l s).1.world ≤ sent s.world + 1
  unfolding with_lease
  sent-with_lease l s = elim (Option-cases client) [
    | inl none_made ↦ rw (none_made, with_lease) (omega arith)
    | inr (c, made) ↦ rw (made, with_lease) (omega (arith, sent-send (some (pools.url l)) s.world))
  ]
    where
      client : Option Cache
      client = get_client net.parse_scheme net.has_dialer (net.now s.world) (pools.url l) s.cache

  sent-on_acquired :
      (r : Result (pools.L × pools.P)) (s : State net pools)
      → sent (on_acquired net pools cfg r s).1.world ≤ sent s.world + 1
  unfolding on_acquired
  sent-on_acquired (err no_proxy) s = elim (Bool-cases cfg.allow_direct) [
    | inl direct ↦ rw (direct, on_acquired) (sent-do_direct s)
    | inr indirect ↦ rw (indirect, on_acquired) (omega arith)
  ]
  sent-on_acquired (err ctx_error) s = omega arith
  sent-on_acquired (ok (l, p)) s = sent-with_lease l (record s { pool = p })

  sent-do_with_lease :
      (n : ℕ) (s : State net pools)
      → sent (do_with_lease net pools cfg n s).1.world ≤ sent s.world + 1
  unfolding do_with_lease
  sent-do_with_lease n s = elim (Bool-cases (ltb 1 n && not (net.rewinds s.world))) [
    | inl stuck ↦ rw (stuck, do_with_lease) (omega arith)
    | inr sendable ↦ rw (sendable, do_with_lease) (sent-on_acquired _ s)
  ]

  -- Where sending counts one request and a pause none, `Do` sends at most one request per attempt,
  -- and one more when direct requests are allowed.
  pub sent-do_request :
      (s : State net pools)
      → sent (do_request net pools cfg s).1.world
        ≤ sent s.world + cfg.max_retries + (if cfg.allow_direct then 1 else 0)
  unfolding do_request
  sent-do_request s =
      do_from-induct net pools cfg (λ k s'. sent s'.world + k ≤ sent s.world + cfg.max_retries)
        (λ r. sent r.1.world ≤ sent s.world + cfg.max_retries + (if cfg.allow_direct then 1 else 0))
        (λ k e s' q. omega (arith, q)) (λ k n s' q. omega (arith, q, sent-do_with_lease n s'))
        (λ k n s' status b q e. omega (arith, q, sent-do_with_lease n s'))
        (λ k s' q. omega (arith, q, sent-wait s'.world))
        (λ k s' direct q. rw direct (omega (arith, q, sent-do_direct s'))) cfg.max_retries 1 _ s
        (omega arith)
