-- ===== src/Proxy/Exhausted.antt =====
-- When `Acquire` finds no proxy.
use mathlib.Core.Bool.{false≢true}
use mathlib.Core.List.{Memᴰ}
use native.Mathlib.Nat.{mod-lt, mod-eq_of_lt, mod-add-mod, add-mod_right}
use dota2_analysis.Base.{
  ℕ, zero, suc, ◌+◌, ◌-◌, ◌%◌, ◌≤◌, ◌<◌, ◌≡◌, refl, sym, ap, ◌∙◌, ◌⊎◌, ◌↔◌, inl, inr, true, false,
  List, [], ◌∷◌, Option, none, some, ◌==◌, length, get_elem?, get_elem?_lt, Bool-cases,
  Option-cases, arith, ℕ_discrete, dec_le, subst,
}
use dota2_analysis.Base.Text.{Text}
use dota2_analysis.Proxy.{Pool, Lease, ok, err, no_proxy, is_leased, acquire_from, acquire}
use dota2_analysis.Proxy.Acquire.{candidate, acquire-Taken, acquire_from_busy, acquire_from_free}

mod_wraps : (a n j : ℕ) → j < n → (a ≡ j) ⊎ (a ≡ j + n) → a % n ≡ j
mod_wraps a n j h (inl e) = subst (λ a. a % n ≡ j) (sym e) (mod-eq_of_lt h)
mod_wraps a n j h (inr e) = subst (λ a. a % n ≡ j) (sym e) (add-mod_right j n ∙ mod-eq_of_lt h)

-- Every index is looked at in some round.
round_of : (c n j : ℕ) → j < n → (i : ℕ) × (i < n) × ((c + i) % n ≡ j)
round_of c n j h =
    let below : c % n < n = mod-lt c (omega arith) in
    elim (dec_le (c % n) j) [
      | yes le ↦
          let i = j - c % n in
          (
            i,
            omega arith,
            sym (mod-add-mod c n i) ∙ mod_wraps (c % n + i) n j h (inl (omega arith)),
          )
      | no gt ↦
          let i = j + n - c % n in
          (
            i,
            omega arith,
            sym (mod-add-mod c n i) ∙ mod_wraps (c % n + i) n j h (inr (omega arith)),
          )
    ]

-- A loop that finds nothing has seen busy proxies in all its rounds.
acquire_from_nothing :
    (left i : ℕ) (p : Pool)
    → 0 < length p.proxies
    → acquire_from left i p ≡ none
    → (k : ℕ) (u : Text) → i ≤ k
    → k < i + left
    → candidate p k ≡ some u
    → is_leased p u ≡ true
acquire_from_nothing zero i p full e k u h h' c = absurd (omega arith)
acquire_from_nothing (suc left) i p full e k u h h' c = elim (Bool-cases (is_leased p w)) [
  | inr free ↦
      let found : ◌≡◌ {A = Option (Text × Pool)} none _ =
        sym e ∙ acquire_from_free left i p here free in
      cc found
  | inl busy ↦ elim (ℕ_discrete i k) [
    | yes now ↦
        let again : ◌≡◌ {A = Option Text} (some u) (some w) =
          sym c ∙ ap (candidate p) (sym now) ∙ here in
        let same : u ≡ w = cc again in ap (is_leased p) same ∙ busy
    | no later ↦
        acquire_from_nothing left (i + 1) p full (sym (acquire_from_busy left i p here busy) ∙ e) k
          u (omega arith) (omega arith) c
  ]
]
  where
    there : (w : Text) × (candidate p i ≡ some w)
    there = get_elem?_lt p.proxies _ (mod-lt (p.cursor + i) full)

    w : Text
    w = there.0

    here : candidate p i ≡ some w
    here = there.1

index_of :
    (xs : List Text) (u : Text) → Memᴰ u xs → (j : ℕ) × (j < length xs) × (get_elem? xs j ≡ some u)
index_of [] u m = elim m [ ]
index_of (x ∷ xs) u (Memᴰ.head e) = (0, omega arith, ap some (sym e))
index_of (x ∷ xs) u (Memᴰ.tail m) = let (j, h, e) = index_of xs u m in (suc j, omega arith, e)

mem_of_index : (xs : List Text) (j : ℕ) {u : Text} → get_elem? xs j ≡ some u → Memᴰ u xs
mem_of_index [] j e = cc
mem_of_index (x ∷ xs) zero e = Memᴰ.head (cc)
mem_of_index (x ∷ xs) (suc j) e = Memᴰ.tail (mem_of_index xs j e)

none_left :
    (p : Pool)
    → acquire_from (length p.proxies) 0 p ≡ none
    → (u : Text) → Memᴰ u p.proxies
    → is_leased p u ≡ true
none_left p e u m =
    let (j, h, at) = index_of p.proxies u m in
    let (i, h', here) = round_of p.cursor (length p.proxies) j h in
    acquire_from_nothing (length p.proxies) 0 p (omega arith) e i u (omega arith) (omega arith)
      (ap (get_elem? p.proxies) here ∙ at)

acquire_outcomes :
    (p : Pool)
    → (acquire false p ≡ err no_proxy)
      ⊎ ((l : Lease) × (p' : Pool) × (acquire false p ≡ ok (l, p')))
unfolding acquire
acquire_outcomes p = elim (Bool-cases (length p.proxies == 0)) [
  | inl empty ↦ inl (rw empty)
  | inr full ↦ elim (Option-cases (acquire_from (length p.proxies) 0 p)) [
    | inl nothing ↦ inl (rw (full, nothing))
    | inr ((u, p'), found) ↦
        let l : Lease = record { url = u; released = false } in inr (l, p', rw (full, found))
  ]
]

acquire_error :
    (p : Pool)
    → acquire false p ≡ err no_proxy
    → (p.proxies ≡ []) ⊎ (acquire_from (length p.proxies) 0 p ≡ none)
unfolding acquire
acquire_error p e = by_list p.proxies refl
  where
    by_list :
        (xs : List Text)
        → p.proxies ≡ xs
        → (p.proxies ≡ []) ⊎ (acquire_from (length p.proxies) 0 p ≡ none)
    by_list [] h = inl h
    by_list (x ∷ xs) h = inr (ground arith)

-- With a live context `Acquire` fails exactly when every proxy of the pool is leased, and then
-- with `ErrNoProxy`.
pub acquire_fails_iff :
    (p : Pool)
    → (acquire false p ≡ err no_proxy) ↔ ((u : Text) → Memᴰ u p.proxies → is_leased p u ≡ true)
acquire_fails_iff p = (all_busy, fails)
  where
    all_busy : acquire false p ≡ err no_proxy → (u : Text) → Memᴰ u p.proxies → is_leased p u ≡ true
    all_busy e u m = elim (acquire_error p e) [
      | inl empty ↦ elim (subst (Memᴰ u) empty m) [ ]
      | inr nothing ↦ none_left p nothing u m
    ]

    fails : ((u : Text) → Memᴰ u p.proxies → is_leased p u ≡ true) → acquire false p ≡ err no_proxy
    fails busy = elim (acquire_outcomes p) [
      | inl e ↦ e
      | inr (l, p', e) ↦
          let t = (acquire-Taken p e).1 in
          absurd (false≢true (sym t.was_free ∙ busy l.url (mem_of_index p.proxies _ t.at)))
    ]
