-- ===== src/Doer.antt =====
-- go-ingestion/internal/proxy/httpdo/doer.go with proxy/transport/transport.go: requests that are
-- sent through a proxy of the pool, and retried through another one. The pool is any
-- implementation of go-ingestion/internal/proxy/pool.go, the interface `ProxyPool`.
mod Replies
pub mod Clients
pub mod Leases
pub mod Attempts
pub mod Inmem
pub mod Limits
pub mod Runs
use dota2_analysis.Base.{
  ℕ, zero, suc, ◌+◌, ◌≡◌, Bool, true, false, not, ◌&&◌, ◌||◌, List, Option, none, some, ltb, leb,
  ◌==◌, if◌then◌else◌, length, take,
}
use dota2_analysis.Base.Text.{Text}
use dota2_analysis.Proxy.{Error, ctx_error, no_proxy, Result, ok, err}
unfoldable pub use Replies.*
use Clients.{Cache, get_client, use_direct}

-- The pool as its clients see it. The laws tie the operations to the urls that are leased: what
-- `MarkSuccess` and `MarkFailure` leave alone, and what `Release` undoes.
pub record ProxyPool : Type 1 where
  pub P : Type 0
  pub L : Type 0
  pub url : L → Text
  pub acquire : Bool → P → Result (L × P)
  pub release : L → P → P
  pub mark_success : L → P → P
  pub mark_failure : L → P → P
  pub leased : P → Text → Bool
  pub leased-mark_success : (l : L) (p : P) (u : Text) → leased (mark_success l p) u ≡ leased p u
  pub leased-mark_failure : (l : L) (p : P) (u : Text) → leased (mark_failure l p) u ≡ leased p u
  pub leased-release :
      (c : Bool) (p : P) {l : L} {p' : P}
      → acquire c p ≡ ok (l, p')
      → (q : P) → ((u : Text) → leased q u ≡ leased p' u)
      → (u : Text) → leased (release l q) u ≡ leased p u

-- What is outside the repository: the network, the clock, the context of the call, and the
-- libraries that parse a url and make a SOCKS dialer for it. `send none` is a direct request.
pub record Net : Type 1 where
  pub World : Type 0
  pub cancelled : World → Bool
  pub now : World → ℕ
  pub send : Option Text → World → Reply × World
  -- `time.After(backoff)`, or the end of the context if that is earlier.
  pub wait : World → World
  -- Whether the body of the request, if it has one, can be sent again.
  pub rewinds : World → Bool
  pub parse_scheme : Text → Option Text
  pub has_dialer : Text → Bool

pub record Config : Type 0 where
  pub max_retries : ℕ
  pub allow_direct : Bool

-- `New`: a limit of 0 or less is replaced.
unfoldable pub new_config : ℕ → Bool → Config
new_config max_retries allow_direct = record {
  max_retries = if max_retries == 0 then 5 else max_retries;
  allow_direct = allow_direct;
}

pub record State (net : Net) (pools : ProxyPool) : Type 0 where
  pub pool : pools.P
  pub cache : Cache
  pub world : net.World

module _ (net : Net) (pools : ProxyPool) (cfg : Config) where
  unfoldable pub do_direct : State net pools → Done × State net pools
  unfolding judge_direct
  do_direct s =
      let (reply, w) = net.send none s.world in
      (judge_direct reply, record s { cache = use_direct (net.now s.world) s.cache; world = w })

  -- The part of `doWithLease` that holds the lease `l`.
  unfoldable pub with_lease : pools.L → State net pools → Done × State net pools
  unfolding judge
  with_lease l s =
      elim (get_client net.parse_scheme net.has_dialer (net.now s.world) (pools.url l) s.cache) [
        | none ↦ (failed_with bad_transport, record s { pool = pools.mark_failure l s.pool })
        | some c ↦
            let (reply, w) = net.send (some (pools.url l)) s.world in
            let (good, d) = judge reply in
            let p = if good then pools.mark_success l s.pool else pools.mark_failure l s.pool in
            (d, record { pool = p; cache = c; world = w })
      ]

  -- What follows `Acquire`. The deferred `Release` runs on every way out of `with_lease`.
  unfoldable pub on_acquired : Result (pools.L × pools.P) → State net pools → Done × State net pools
  unfolding do_direct with_lease
  on_acquired (err no_proxy) s =
      if cfg.allow_direct then do_direct s else (failed_with no_proxy_left, s)
  on_acquired (err ctx_error) s = (failed_with acquire_failed, s)
  on_acquired (ok (l, p)) s =
      let (d, s') = with_lease l (record s { pool = p }) in
      (d, record s' { pool = pools.release l s'.pool })

  unfoldable pub do_with_lease : ℕ → State net pools → Done × State net pools
  unfolding on_acquired
  do_with_lease attempt s =
      if ltb 1 attempt && not (net.rewinds s.world)
      then (failed_with rewind_failed, s)
      else on_acquired (pools.acquire (net.cancelled s.world) s.pool) s

  -- The loop of `Do` with `left` attempts to go; `last` is the error of the one before.
  unfoldable pub do_from : ℕ → ℕ → DoError → State net pools → Done × State net pools
  unfolding do_direct do_with_lease next_of
  do_from zero attempt last s = if cfg.allow_direct then do_direct s else (failed_with last, s)
  do_from (suc left) attempt last s = elim (net.cancelled s.world) [
    | true ↦ (failed_with ctx_done, s)
    | false ↦
        let (d, s') = do_with_lease attempt s in
        elim (next_of (net.cancelled s'.world) d) [
          | stop d' ↦ (d', s')
          | at_once e ↦ do_from left (attempt + 1) e s'
          | after_backoff e ↦
              let w = net.wait s'.world in
              elim (net.cancelled w) [
                | true ↦ (failed_with ctx_done, record s' { world = w })
                | false ↦ do_from left (attempt + 1) e (record s' { world = w })
              ]
        ]
  ]

  unfoldable pub do_request : State net pools → Done × State net pools
  unfolding do_from
  do_request s = do_from cfg.max_retries 1 exhausted s
