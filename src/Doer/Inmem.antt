-- ===== src/Doer/Inmem.antt =====
-- The in-memory pool as the pool of a `Doer`.
use dota2_analysis.Base.{
  ◌≡◌, ◌≢◌, refl, sym, ap, ◌∙◌, Bool, true, false, ite, if_pos, if_neg, arith,
}
use dota2_analysis.Base.Text.{Text, Text-discrete}
use dota2_analysis.Proxy.{Pool, Lease, ok, is_leased, acquire, release, mark_success, mark_failure}
use dota2_analysis.Proxy.Acquire.{Taken, acquire-Taken}
use dota2_analysis.Proxy.Leases.{
  is_leased_by, is_leased-is_leased_by, is_leased_by-delete, release-leased, release-acquire,
}
use dota2_analysis.Doer.{ProxyPool}

pub is_leased-mark_success :
    (l : Lease) (p : Pool) (u : Text) → is_leased (mark_success l p) u ≡ is_leased p u
unfolding is_leased mark_success
is_leased-mark_success l p u = refl

pub is_leased-mark_failure :
    (l : Lease) (p : Pool) (u : Text) → is_leased (mark_failure l p) u ≡ is_leased p u
unfolding is_leased mark_failure
is_leased-mark_failure l p u = refl

acquire_cancelled : (p : Pool) {l : Lease} {p' : Pool} → acquire true p ≢ ok (l, p')
unfolding acquire
acquire_cancelled p e = ground arith

is_leased_by-release :
    (p : Pool) (l : Lease) (p' : Pool)
    → acquire false p ≡ ok (l, p')
    → (q : Pool) → ((u : Text) → is_leased q u ≡ is_leased p' u)
    → (u : Text) → is_leased (release l q).1 u ≡ is_leased p u
is_leased_by-release p l p' e q same u = elim (Text-discrete l.url u) [
  | yes here ↦
      freed ∙ if_pos (Text-discrete l.url u) here _ _ ∙ sym t.was_free ∙ ap (is_leased p) here
  | no other ↦
      freed
      ∙ if_neg (Text-discrete l.url u) other _ _
      ∙ sym (is_leased-is_leased_by q u)
      ∙ same u
      ∙ sym (
          is_leased-is_leased_by (release l p').1 u
          ∙ ap (λ m. is_leased_by m u) (release-leased l p' fresh)
          ∙ is_leased_by-delete l.url u p'.leased
          ∙ if_neg (Text-discrete l.url u) other _ _
          ∙ sym (is_leased-is_leased_by p' u))
      ∙ release-acquire p e u
]
  where
    fresh : l.released ≡ false
    fresh = (acquire-Taken p e).0

    t : Taken p 0 l.url p'
    t = (acquire-Taken p e).1

    freed :
        is_leased (release l q).1 u ≡ ite (Text-discrete l.url u) false (is_leased_by q.leased u)
    freed =
        is_leased-is_leased_by (release l q).1 u
        ∙ ap (λ m. is_leased_by m u) (release-leased l q fresh)
        ∙ is_leased_by-delete l.url u q.leased

pub is_leased-release :
    (c : Bool) (p : Pool) {l : Lease} {p' : Pool}
    → acquire c p ≡ ok (l, p')
    → (q : Pool) → ((u : Text) → is_leased q u ≡ is_leased p' u)
    → (u : Text) → is_leased (release l q).1 u ≡ is_leased p u
is_leased-release true p e q same u = absurd (acquire_cancelled p e)
is_leased-release false p {l} {p'} e q same u = is_leased_by-release p l p' e q same u

-- The implementation of the interface: a lease is released at most once by the `Doer`, so the
-- new state of the lease is dropped.
abbrev pub inmem_pool : ProxyPool
inmem_pool = record {
  P = Pool;
  L = Lease;
  url = λ (l : Lease). l.url;
  acquire = acquire;
  release = λ l p. (release l p).1;
  mark_success = mark_success;
  mark_failure = mark_failure;
  leased = is_leased;
  leased-mark_success = is_leased-mark_success;
  leased-mark_failure = is_leased-mark_failure;
  leased-release = is_leased-release;
}
