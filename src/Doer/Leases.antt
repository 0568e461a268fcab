-- ===== src/Doer/Leases.antt =====
-- The leases of the pool over a whole request, `Do` of go-ingestion/internal/proxy/httpdo/doer.go.
use dota2_analysis.Base.{
  ℕ, ◌≡◌, refl, ap, ◌∙◌, Bool, true, false, not, ◌&&◌, Option, some, inl, inr, ltb, if◌then◌else◌,
  Bool-cases, Option-cases,
}
use dota2_analysis.Base.Text.{Text}
use dota2_analysis.Proxy.{ctx_error, no_proxy, Result, ok, err}
use dota2_analysis.Doer.Clients.{Cache, get_client}
use dota2_analysis.Doer.{
  ProxyPool, Net, Config, State, judge, do_direct, with_lease, on_acquired, do_with_lease,
  do_request,
}
use dota2_analysis.Doer.Runs.{do_from-induct}

module _ (net : Net) (pools : ProxyPool) (cfg : Config) where
  leased-with_lease :
      (l : pools.L) (s : State net pools) (u : Text)
      → pools.leased (with_lease net pools cfg l s).1.pool u ≡ pools.leased s.pool u
  unfolding with_lease
  leased-with_lease l s u = elim (Option-cases client) [
    | inl none_made ↦ rw (none_made, with_lease) (pools.leased-mark_failure l s.pool u)
    | inr (c, made) ↦
        rw (made, with_lease) (by_mark (judge (net.send (some (pools.url l)) s.world).0).0)
  ]
    where
      client : Option Cache
      client = get_client net.parse_scheme net.has_dialer (net.now s.world) (pools.url l) s.cache

      by_mark :
          (good : Bool)
          → pools.leased
              (if good then pools.mark_success l s.pool else pools.mark_failure l s.pool)
              u
            ≡ pools.leased s.pool u
      by_mark true = pools.leased-mark_success l s.pool u
      by_mark false = pools.leased-mark_failure l s.pool u

  pool-do_direct : (s : State net pools) → (do_direct net pools cfg s).1.pool ≡ s.pool
  unfolding do_direct
  pool-do_direct s = refl

  leased-on_acquired :
      (r : Result (pools.L × pools.P)) (s : State net pools) (u : Text)
      → pools.acquire (net.cancelled s.world) s.pool ≡ r
      → pools.leased (on_acquired net pools cfg r s).1.pool u ≡ pools.leased s.pool u
  unfolding on_acquired
  leased-on_acquired (err no_proxy) s u e = elim (Bool-cases cfg.allow_direct) [
    | inl direct ↦ rw (direct, on_acquired) (ap (λ p. pools.leased p u) (pool-do_direct s))
    | inr indirect ↦ rw (indirect, on_acquired) refl
  ]
  leased-on_acquired (err ctx_error) s u e = refl
  leased-on_acquired (ok (l, p)) s u e =
      pools.leased-release (net.cancelled s.world) s.pool e
        (with_lease net pools cfg l (record s { pool = p })).1.pool
        (leased-with_lease l (record s { pool = p })) u

  leased-do_with_lease :
      (n : ℕ) (s : State net pools) (u : Text)
      → pools.leased (do_with_lease net pools cfg n s).1.pool u ≡ pools.leased s.pool u
  unfolding do_with_lease
  leased-do_with_lease n s u = elim (Bool-cases (ltb 1 n && not (net.rewinds s.world))) [
    | inl stuck ↦ rw (stuck, do_with_lease) refl
    | inr sendable ↦
        rw (sendable, do_with_lease)
          (leased-on_acquired (pools.acquire (net.cancelled s.world) s.pool) s u refl)
  ]

  -- `Do` leaves no lease behind: whatever the replies, the errors and the end of the context, the
  -- proxies that are leased after the call are those that were leased before.
  pub leased-do_request :
      (s : State net pools) (u : Text)
      → pools.leased (do_request net pools cfg s).1.pool u ≡ pools.leased s.pool u
  unfolding do_request
  leased-do_request s u =
      do_from-induct net pools cfg (λ k s'. pools.leased s'.pool u ≡ pools.leased s.pool u)
        (λ r. pools.leased r.1.pool u ≡ pools.leased s.pool u) (λ k e s' q. q)
        (λ k n s' q. leased-do_with_lease n s' u ∙ q)
        (λ k n s' status b q e. leased-do_with_lease n s' u ∙ q) (λ k s' q. q)
        (λ k s' direct q. ap (λ p. pools.leased p u) (pool-do_direct s') ∙ q) cfg.max_retries 1 _ s
        refl
