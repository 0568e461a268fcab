-- ===== src/Proxy.antt =====
-- go-ingestion/internal/proxy/inmem/{pool,lease}.go: the in-memory pool of proxies. Every method
-- holds the lock for its whole body; `cancelled` is whether the context of a call has an error.
pub mod Acquire
pub mod Exhausted
pub mod Leases
pub mod Readmit
use dota2_analysis.Base.{
  ℕ, zero, suc, ◌+◌, ◌%◌, Bool, true, false, List, [], ◌∷◌, ◌++◌, Option, none, some, ◌==◌,
  if◌then◌else◌, length, get_elem?, Map, lookup, insert, delete,
}
use dota2_analysis.Base.Text.{Text, Text-discrete}

pub record Stats : Type 0 where
  pub successes : ℕ
  pub failures : ℕ

pub record Pool : Type 0 where
  pub proxies : List Text
  pub cursor : ℕ
  pub leased : Map Text (Unit {0})
  pub stats : Map Text Stats

pub data Error : Type 0 where
  ctx_error no_proxy : Error

pub data Result {ℓ} (A : Type ℓ) : Type ℓ where
  ok : A → Result A
  err : Error → Result A

-- A lease acts on its url through the pool's `releaseFn`, `successFn` and `failureFn`.
pub record Lease : Type 0 where
  pub url : Text
  pub released : Bool

unfoldable pub new : List Text → Pool
new initial = record { proxies = initial; cursor = 0; leased = []; stats = [] }

-- `_, busy := p.leased[url]`
unfoldable pub is_leased : Pool → Text → Bool
is_leased p url = elim (lookup Text-discrete url p.leased) [ none ↦ false | some _ ↦ true ]

-- The loop of `Acquire` with `left` rounds to go, the next one for `i`. An index is below the
-- length; `none` is a loop that found every proxy busy.
unfoldable pub acquire_from : ℕ → ℕ → Pool → Option (Text × Pool)
acquire_from zero i p = none
acquire_from (suc left) i p =
    let idx = (p.cursor + i) % length p.proxies in
    let rest = acquire_from left (i + 1) p in
    elim (get_elem? p.proxies idx) [
      | none ↦ none
      | some url ↦
          if is_leased p url
          then rest
          else some (
            url,
            record p {
              leased = insert Text-discrete url tt p.leased;
              cursor = (idx + 1) % length p.proxies;
            },
          )
    ]

unfoldable pub acquire : Bool → Pool → Result (Lease × Pool)
unfolding acquire_from
acquire cancelled p =
    if cancelled
    then err ctx_error
    else if length p.proxies == 0
    then err no_proxy
    else elim (acquire_from (length p.proxies) 0 p) [
      | none ↦ err no_proxy
      | some (url, p') ↦ ok (record { url = url; released = false }, p')
    ]

-- `Release` of a lease: the compare-and-swap lets the first call through only.
unfoldable pub release : Lease → Pool → Lease × Pool
release l p =
    if l.released
    then (l, p)
    else (record l { released = true }, record p { leased = delete Text-discrete l.url p.leased })

unfoldable pub member : Text → List Text → Bool
member u [] = false
member u (x ∷ xs) = elim (Text-discrete x u) [ yes _ ↦ true | no _ ↦ member u xs ]

-- The loop of `Replace` over the leased proxies: it drops those that are no longer healthy.
unfoldable pub keep_leased : List Text → Map Text (Unit {0}) → Map Text (Unit {0})
unfolding member
keep_leased healthy [] = []
keep_leased healthy ((u, v) ∷ leased) =
    let rest = keep_leased healthy leased in if member u healthy then (u, v) ∷ rest else rest

unfoldable pub replace : Bool → List Text → Pool → Result Pool
unfolding keep_leased
replace cancelled healthy p =
    if cancelled
    then err ctx_error
    else ok (record p { leased = keep_leased healthy p.leased; proxies = healthy; cursor = 0 })

-- The loop of `Add`: `seen` holds the urls of the pool and those added before.
unfoldable pub add_new : List Text → List Text → List Text
unfolding member
add_new proxies [] = proxies
add_new proxies (u ∷ healthy) =
    add_new (if member u proxies then proxies else proxies ++ u ∷ []) healthy

unfoldable pub add : Bool → List Text → Pool → Result Pool
unfolding add_new
add cancelled healthy p =
    if cancelled then err ctx_error else ok (record p { proxies = add_new p.proxies healthy })

unfoldable pub size : Bool → Pool → Result ℕ
size cancelled p = if cancelled then err ctx_error else ok (length p.proxies)

-- `StatsFor`, where a missing entry reads as `Stats{}`.
unfoldable pub stats_for : Pool → Text → Stats
stats_for p url = elim (lookup Text-discrete url p.stats) [
  | some s ↦ s
  | none ↦ record { successes = 0; failures = 0 }
]

unfoldable pub leased_count : Pool → ℕ
leased_count p = length p.leased

unfoldable pub mark_success : Lease → Pool → Pool
unfolding stats_for
mark_success l p =
    let s = stats_for p l.url in
    record p {
      stats = insert Text-discrete l.url (record s { successes = s.successes + 1 }) p.stats;
    }

unfoldable pub mark_failure : Lease → Pool → Pool
unfolding stats_for
mark_failure l p =
    let s = stats_for p l.url in
    record p { stats = insert Text-discrete l.url (record s { failures = s.failures + 1 }) p.stats }
