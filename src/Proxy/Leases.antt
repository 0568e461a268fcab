-- ===== src/Proxy/Leases.antt =====
-- Leases that come back: `Release` after `Acquire`, and a lease of an earlier pool.
use dota2_analysis.Base.{
  ◌≡◌, refl, sym, ap, ◌∙◌, Bool, true, false, Option, none, some, Map, lookup, insert, delete,
  lookup-insert, lookup-delete, ite, if_pos, if_neg,
}
use dota2_analysis.Base.Text.{Text, Text-discrete}
use dota2_analysis.Proxy.{Pool, Lease, ok, is_leased, acquire, release}
use dota2_analysis.Proxy.Acquire.{acquire-Taken}

abbrev held : Option (Unit {0}) → Bool
held o = elim o [ none ↦ false | some _ ↦ true ]

-- Whether a url is leased, from the map of the leases.
abbrev pub is_leased_by : Map Text (Unit {0}) → Text → Bool
is_leased_by leased u = held (lookup Text-discrete u leased)

pub is_leased-is_leased_by : (p : Pool) (u : Text) → is_leased p u ≡ is_leased_by p.leased u
unfolding is_leased
is_leased-is_leased_by p u = refl

-- Taking a url out of the map frees that url and no other.
pub is_leased_by-delete :
    (v u : Text) (leased : Map Text (Unit {0}))
    → is_leased_by (delete Text-discrete v leased) u
      ≡ ite (Text-discrete v u) false (is_leased_by leased u)
is_leased_by-delete v u leased = elim (Text-discrete v u) [
  | yes e ↦
      ap held (lookup-delete Text-discrete v u leased ∙ if_pos (Text-discrete v u) e _ _)
      ∙ sym (if_pos (Text-discrete v u) e _ _)
  | no n ↦
      ap held (lookup-delete Text-discrete v u leased ∙ if_neg (Text-discrete v u) n _ _)
      ∙ sym (if_neg (Text-discrete v u) n _ _)
]

delete-insert_leased :
    (leased : Map Text (Unit {0})) (v u : Text)
    → is_leased_by leased v ≡ false
    → is_leased_by (delete Text-discrete v (insert Text-discrete v tt leased)) u
      ≡ is_leased_by leased u
delete-insert_leased leased v u free =
    is_leased_by-delete v u (insert Text-discrete v tt leased) ∙ elim (Text-discrete v u) [
      | yes e ↦ if_pos (Text-discrete v u) e _ _ ∙ sym free ∙ ap (is_leased_by leased) e
      | no n ↦
          if_neg (Text-discrete v u) n _ _
          ∙ ap held (lookup-insert Text-discrete v u tt leased ∙ if_neg (Text-discrete v u) n _ _)
    ]

pub release-leased :
    (l : Lease) (p : Pool)
    → l.released ≡ false
    → (release l p).1.leased ≡ delete Text-discrete l.url p.leased
unfolding release
release-leased l p h = rw h

-- A proxy that is acquired and released is free again, and no other lease has changed.
pub release-acquire :
    (p : Pool) {l : Lease} {p' : Pool}
    → acquire false p ≡ ok (l, p')
    → (u : Text) → is_leased (release l p').1 u ≡ is_leased p u
release-acquire p {l} {p'} e u =
    let (fresh, t) = acquire-Taken p e in
    is_leased-is_leased_by (release l p').1 u
    ∙ ap (λ m. is_leased_by m u) (release-leased l p' fresh ∙ ap (delete Text-discrete l.url) t.now)
    ∙ delete-insert_leased p.leased l.url u (sym (is_leased-is_leased_by p l.url) ∙ t.was_free)
    ∙ sym (is_leased-is_leased_by p u)
