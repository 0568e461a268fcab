-- ===== src/Proxy/Readmit.antt =====
-- A proxy that a health check takes out of the pool and a later one puts back.
use dota2_analysis.Base.{◌≡◌, refl, ap, ◌∙◌, false, [], ◌∷◌, Map, lookup, insert, if_pos}
use dota2_analysis.Base.Text.{Text, Text-discrete}
use dota2_analysis.Proxy.{Pool, Lease, ok, is_leased, acquire, release, replace, keep_leased}
use dota2_analysis.Proxy.Leases.{
  is_leased_by, is_leased-is_leased_by, is_leased_by-delete, release-leased,
}

keep_leased-nil : (leased : Map Text (Unit {0})) → keep_leased [] leased ≡ []
unfolding keep_leased
keep_leased-nil [] = refl
keep_leased-nil ((u, v) ∷ leased) = keep_leased-nil leased

-- The pool of one proxy that nobody holds, and the same pool when it is handed out.
abbrev alone : Pool → Text → Pool
alone p u = record p { proxies = u ∷ []; cursor = 0; leased = [] }

abbrev taken : Pool → Text → Pool
taken p u = record p { proxies = u ∷ []; cursor = 0; leased = (u, tt) ∷ [] }

acquire-alone :
    (p : Pool) (u : Text)
    → acquire false (alone p u) ≡ ok (record { url = u; released = false }, taken p u)
unfolding acquire is_leased lookup insert
acquire-alone p u = refl

is_leased-release :
    (l : Lease) (p : Pool)
    → l.released ≡ false
    → is_leased (release l (taken p l.url)).1 l.url ≡ false
is_leased-release l p h =
    is_leased-is_leased_by (release l (taken p l.url)).1 l.url
    ∙ ap (λ m. is_leased_by m l.url) (release-leased l (taken p l.url) h)
    ∙ is_leased_by-delete l.url l.url ((l.url, tt) ∷ [])
    ∙ if_pos (Text-discrete l.url l.url) refl _ _

-- A lease outlives the removal of its proxy: after a `Replace` that drops the proxy and one that
-- brings it back, `Acquire` hands the url out a second time while the first lease is unreleased,
-- and the `Release` of the first lease frees the url that the second holds.
pub stale_release :
    (p : Pool) (l : Lease)
    → l.released ≡ false
    → (p₁ p₂ p₃ : Pool) × (m : Lease) × (replace false [] p ≡ ok p₁)
      × (replace false (l.url ∷ []) p₁ ≡ ok p₂)
      × (acquire false p₂ ≡ ok (m, p₃))
      × (m.url ≡ l.url)
      × (m.released ≡ false)
      × (is_leased (release l p₃).1 m.url ≡ false)
unfolding replace
stale_release p l h = (
  record p { leased = []; proxies = []; cursor = 0 },
  alone p l.url,
  taken p l.url,
  record { url = l.url; released = false },
  rw (keep_leased-nil p.leased),
  refl,
  acquire-alone p l.url,
  refl,
  refl,
  is_leased-release l p h,
)
