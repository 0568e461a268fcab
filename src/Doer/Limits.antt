-- ===== src/Doer/Limits.antt =====
-- Which responses `Do` returns (go-ingestion/internal/proxy/httpdo/doer.go).
use dota2_analysis.Base.{
  ℕ, ◌≤◌, ◌<◌, subst, ◌==◌, Bool, true, false, not, ◌&&◌, Option, none, some, inl, inr, ltb, leb,
  Bool-cases, Option-cases, arith, length,
}
use dota2_analysis.Proxy.{ctx_error, no_proxy, Result, ok, err}
use dota2_analysis.Doer.Clients.{Cache, get_client}
use dota2_analysis.Doer.{
  ProxyPool, Net, Config, State, Done, response, failed_with, Reply, Body, judge, judge_direct,
  read_body, read_limited, answered, unanswered, is_proxy_status, max_response_body_bytes,
  do_direct, with_lease, on_acquired, do_with_lease, do_request,
}
use dota2_analysis.Doer.Runs.{do_from-induct}

abbrev IsWithin : ℕ → Done → Type 0
IsWithin limit (response status b) = (status < 400) × (length b ≤ limit)
IsWithin limit (failed_with e) = Unit {0}

-- A response that `Do` may return.
abbrev pub IsAcceptable : Done → Type 0
IsAcceptable = IsWithin max_response_body_bytes

read_limited-IsWithin :
    (limit status : ℕ) (body : Body)
    → status < 400
    → IsWithin limit (read_limited limit status body)
unfolding read_limited
read_limited-IsWithin limit status body h = ground arith

read_body-IsAcceptable :
    (status : ℕ) (body : Body) → status < 400 → IsAcceptable (read_body status body)
unfolding read_body
read_body-IsAcceptable status body h = read_limited-IsWithin max_response_body_bytes status body h

-- Replies with the status given to a body that is read.
judge-IsAcceptable : (r : Reply) → IsAcceptable (judge r).1
unfolding judge
judge-IsAcceptable (unanswered e) = tt
judge-IsAcceptable (answered status body) = elim (Bool-cases (leb 400 status)) [
  | inl bad ↦ elim (Bool-cases (is_proxy_status status)) [
    | inl blamed ↦ rw (bad, blamed, judge) tt
    | inr spared ↦ elim (Bool-cases (status == 429)) [
      | inl limited ↦ rw (bad, spared, limited, judge) tt
      | inr target ↦ rw (bad, spared, target, judge) tt
    ]
  ]
  | inr good ↦
      rw (good, judge)
        (by_body (read_body status body) (read_body-IsAcceptable status body (ground arith)))
]
  where
    by_body :
        (d : Done)
        → IsAcceptable d
        → IsAcceptable
            (elim d as (λ _. Bool × Done) [
              | response s b ↦ (true, response s b)
              | failed_with e ↦ (false, failed_with e)
            ]).1
    by_body (response s b) h = h
    by_body (failed_with e) h = tt

judge_direct-IsAcceptable : (r : Reply) → IsAcceptable (judge_direct r)
unfolding judge_direct
judge_direct-IsAcceptable (unanswered e) = tt
judge_direct-IsAcceptable (answered status body) = elim (Bool-cases (leb 400 status)) [
  | inl bad ↦ elim (Bool-cases (status == 429)) [
    | inl limited ↦ rw (bad, limited, judge_direct) tt
    | inr target ↦ rw (bad, target, judge_direct) tt
  ]
  | inr good ↦ rw (good, judge_direct) (read_body-IsAcceptable status body (ground arith))
]

module _ (net : Net) (pools : ProxyPool) (cfg : Config) where
  do_direct-IsAcceptable : (s : State net pools) → IsAcceptable (do_direct net pools cfg s).0
  unfolding do_direct
  do_direct-IsAcceptable s = judge_direct-IsAcceptable (net.send none s.world).0

  with_lease-IsAcceptable :
      (l : pools.L) (s : State net pools) → IsAcceptable (with_lease net pools cfg l s).0
  unfolding with_lease
  with_lease-IsAcceptable l s = elim (Option-cases client) [
    | inl none_made ↦ rw (none_made, with_lease) tt
    | inr (c, made) ↦
        rw (made, with_lease) (judge-IsAcceptable (net.send (some (pools.url l)) s.world).0)
  ]
    where
      client : Option Cache
      client = get_client net.parse_scheme net.has_dialer (net.now s.world) (pools.url l) s.cache

  on_acquired-IsAcceptable :
      (r : Result (pools.L × pools.P)) (s : State net pools)
      → IsAcceptable (on_acquired net pools cfg r s).0
  unfolding on_acquired
  on_acquired-IsAcceptable (err no_proxy) s = elim (Bool-cases cfg.allow_direct) [
    | inl direct ↦ rw (direct, on_acquired) (do_direct-IsAcceptable s)
    | inr indirect ↦ rw (indirect, on_acquired) tt
  ]
  on_acquired-IsAcceptable (err ctx_error) s = tt
  on_acquired-IsAcceptable (ok (l, p)) s = with_lease-IsAcceptable l (record s { pool = p })

  do_with_lease-IsAcceptable :
      (n : ℕ) (s : State net pools) → IsAcceptable (do_with_lease net pools cfg n s).0
  unfolding do_with_lease
  do_with_lease-IsAcceptable n s = elim (Bool-cases (ltb 1 n && not (net.rewinds s.world))) [
    | inl stuck ↦ rw (stuck, do_with_lease) tt
    | inr sendable ↦ rw (sendable, do_with_lease) (on_acquired-IsAcceptable _ s)
  ]

  -- A response that `Do` returns has a status below 400 and a body of at most 50 MB, whichever
  -- attempt it comes from.
  pub do_request-IsAcceptable : (s : State net pools) → IsAcceptable (do_request net pools cfg s).0
  unfolding do_request
  do_request-IsAcceptable s =
      do_from-induct net pools cfg (λ k s'. Unit {0}) (λ r. IsAcceptable r.0) (λ k e s' q. tt)
        (λ k n s' q. tt)
        (λ k n s' status b q e. subst IsAcceptable e (do_with_lease-IsAcceptable n s'))
        (λ k s' q. q) (λ k s' direct q. do_direct-IsAcceptable s') cfg.max_retries 1 _ s tt
