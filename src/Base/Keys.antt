-- ===== src/Base/Keys.antt =====
-- The keys of an association map, each stored once, and permutations under `insert` and `delete`.
use mathlib.Core.Path.{◌≡◌, refl, sym, ap, subst, ◌∙◌}
use mathlib.Core.Logic.{◌≢◌, if_pos, if_neg, ∥∥₁_map, ∥∥₁_elim}
use mathlib.Core.List.{
  List, [], ◌∷◌, map, Mem, Memᴰ, Perm, Nodup, Nodup-cons, mem-map_of_mem, mem-cons_self,
  mem-cons_of_mem, Sublist, Sublistᴰ, Perm-prop,
}
use mathlib.Core.List.Perm
use dota2_analysis.Base.Assoc.{Map, delete}

module _ {ℓ} {K V : Type ℓ} where
  abbrev pub keys : Map K V → List K
  keys = map (λ e. e.0)

  abbrev pub values : Map K V → List V
  values = map (λ e. e.1)

module _ {ℓ} {K V : Type ℓ} (dec : Discrete K) where
  pub delete_absent : (k : K) (m : Map K V) → ¬ Mem k (keys m) → delete dec k m ≡ m
  unfolding delete
  delete_absent k [] h = refl
  delete_absent k ((j, v) ∷ m) h = elim (dec j k) [
    | yes e ↦ absurd (h (subst (λ i. Mem i (j ∷ keys m)) e mem-cons_self))
    | no n ↦ rw (if_neg _ n) (ap (◌∷◌ (j, v)) (delete_absent k m (λ i. h (mem-cons_of_mem j i))))
  ]

  -- Taking out a key that is stored once takes out its entry and no other.
  pub delete-perm :
      (k : K) (v : V) (m : Map K V)
      → Nodup (keys m)
      → Memᴰ (k, v) m
      → Perm m ((k, v) ∷ delete dec k m)
  unfolding delete
  delete-perm k v [] n i = elim i [ ]
  delete-perm k v ((j, w) ∷ m) n (Memᴰ.head e) = elim (dec j k) [
    | no d ↦ absurd (d (sym (ap (λ e. e.0) e)))
    | yes p ↦ rw (if_pos _ p) (
        subst (λ m'. Perm ((j, w) ∷ m) ((k, v) ∷ m'))
          (sym
            (delete_absent k m (λ i. (Nodup-cons.0 n).0 (subst (λ i. Mem i (keys m)) (sym p) i))))
          (Perm.cons' (sym e) Perm.rfl))
  ]
  delete-perm k v ((j, w) ∷ m) n (Memᴰ.tail i) = elim (dec j k) [
    | yes p ↦
        absurd ((Nodup-cons.0 n).0 (subst (λ i. Mem i (keys m)) (sym p) (mem-map_of_mem _ ∣ i ∣₁)))
    | no d ↦ rw (if_neg _ d) (
        Perm.trans (Perm.cons (j, w) (delete-perm k v m (Nodup-cons.0 n).1 i))
          (Perm.swap (k, v) (j, w) (delete dec k m)))
  ]

  keys-delete-Sublistᴰ : (k : K) (m : Map K V) → Sublistᴰ (keys (delete dec k m)) (keys m)
  unfolding delete
  keys-delete-Sublistᴰ k [] = Sublistᴰ.slnil
  keys-delete-Sublistᴰ k ((j, w) ∷ m) = elim (dec j k) [
    | yes p ↦ rw (if_pos _ p) (Sublistᴰ.cons (keys-delete-Sublistᴰ k m))
    | no d ↦ rw (if_neg _ d) (Sublistᴰ.cons-cons refl (keys-delete-Sublistᴰ k m))
  ]

  pub keys-delete-sublist : (k : K) (m : Map K V) → Sublist (keys (delete dec k m)) (keys m)
  keys-delete-sublist k m = ∣ keys-delete-Sublistᴰ k m ∣₁

  Memᴰ-delete_ne :
      (k j : K) (v : V) (m : Map K V) → j ≢ k → Memᴰ (k, v) m → Memᴰ (k, v) (delete dec j m)
  unfolding delete
  Memᴰ-delete_ne k j v [] n i = elim i [ ]
  Memᴰ-delete_ne k j v ((l, w) ∷ m) n (Memᴰ.head e) =
      rw (if_neg _ (λ h. n (sym (sym (ap (λ e. e.0) (sym e)) ∙ h)))) (Memᴰ.head e)
  Memᴰ-delete_ne k j v ((l, w) ∷ m) n (Memᴰ.tail i) = elim (dec l j) [
    | yes p ↦ rw (if_pos _ p) (Memᴰ-delete_ne k j v m n i)
    | no d ↦ rw (if_neg _ d) (Memᴰ.tail (Memᴰ-delete_ne k j v m n i))
  ]

  pub mem-delete_ne :
      (k j : K) (v : V) (m : Map K V) → j ≢ k → Mem (k, v) m → Mem (k, v) (delete dec j m)
  mem-delete_ne k j v m n i = ∥∥₁_map i (Memᴰ-delete_ne k j v m n)

  pub delete-perm_of_mem :
      (k : K) (v : V) (m : Map K V)
      → Nodup (keys m)
      → Mem (k, v) m
      → Perm m ((k, v) ∷ delete dec k m)
  delete-perm_of_mem k v m n i = ∥∥₁_elim i Perm-prop (delete-perm k v m n)
