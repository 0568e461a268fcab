-- ===== src/Dedup/Marks.antt =====
-- What `MarkSeen` and `CheckBatch` say of a key.
use mathlib.Core.List.{Memᴰ}
use dota2_analysis.Base.{
  ◌≡◌, sym, ap, ◌∙◌, ◌⊎◌, inl, inr, Bool, true, List, [], ◌∷◌, some, Map, lookup, lookup-insert,
  ite, if_pos, if_neg, arith,
}
use dota2_analysis.Base.Text.{Text, Text-discrete}
use dota2_analysis.Dedup.{Seen, is_seen, mark_seen, check_from, check_batch}

-- The first `MarkSeen` of a key answers that it is new, every later one that it was seen; the marks
-- of the other keys stay as they are.
pub mark_seen-is_seen :
    (key other : Text) (s : Seen)
    → ((mark_seen key s).0 ≡ is_seen key s)
      × (is_seen other (mark_seen key s).1 ≡ ite (Text-discrete key other) true (is_seen other s))
unfolding mark_seen is_seen
mark_seen-is_seen key other s = (
  ground arith,
  ground (
    arith,
    lookup-insert Text-discrete key other tt s.seen,
    ap (λ k. lookup Text-discrete k s.seen),
  ),
)

lookup-check_from :
    (keys : List Text) (s : Seen) (result : Map Text Bool) (k : Text)
    → (lookup Text-discrete k result ≡ some (is_seen k s)) ⊎ Memᴰ k keys
    → lookup Text-discrete k (check_from keys s result) ≡ some (is_seen k s)
unfolding check_from
lookup-check_from [] s result k (inl known) = known
lookup-check_from [] s result k (inr m) = elim m [ ]
lookup-check_from (j ∷ keys) s result k h = elim (Text-discrete j k) [
  | yes same ↦ lookup-check_from keys s _ k (
      inl (
        lookup-insert Text-discrete j k (is_seen j s) result
        ∙ if_pos (Text-discrete j k) same _ _
        ∙ ap (λ i. some (is_seen i s)) same))
  | no differ ↦ lookup-check_from keys s _ k (elim h [
    | inl known ↦ inl (
        lookup-insert Text-discrete j k (is_seen j s) result
        ∙ if_neg (Text-discrete j k) differ _ _
        ∙ known)
    | inr m ↦ inr (elim m [ Memᴰ.head e ↦ absurd (differ (sym e)) | Memᴰ.tail m' ↦ m' ])
  ])
]

-- `CheckBatch` has, for every key that it is asked about, the answer of `IsSeen`.
pub check_batch-is_seen :
    (keys : List Text) (s : Seen) (k : Text)
    → Memᴰ k keys
    → lookup Text-discrete k (check_batch keys s) ≡ some (is_seen k s)
unfolding check_batch
check_batch-is_seen keys s k m = lookup-check_from keys s [] k (inr m)
