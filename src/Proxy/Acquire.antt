-- ===== src/Proxy/Acquire.antt =====
-- What `Acquire` of the in-memory pool hands out.
use dota2_analysis.Base.{
  ℕ, zero, suc, ◌+◌, ◌%◌, ◌≤◌, ◌<◌, ◌≡◌, refl, sym, ap, ◌∙◌, inl, inr, true, false, Option, none,
  some, ◌==◌, length, get_elem?, insert, Bool-cases, Option-cases, arith, ℕ_discrete, subst,
}
use dota2_analysis.Base.Text.{Text, Text-discrete}
use dota2_analysis.Proxy.{Pool, Lease, ok, is_leased, acquire_from, acquire}

-- The proxy that the round `i` of the loop looks at.
abbrev pub candidate : Pool → ℕ → Option Text
candidate p i = get_elem? p.proxies ((p.cursor + i) % length p.proxies)

-- What a loop that hands out a proxy has done: it skipped busy ones, and took the first free one.
pub record Taken (p : Pool) (i : ℕ) (url : Text) (p' : Pool) : Type 0 where
  pub round : ℕ
  pub not_before : i ≤ round
  pub at : candidate p round ≡ some url
  pub was_free : is_leased p url ≡ false
  pub first : (k : ℕ) (u : Text) → i ≤ k → k < round → candidate p k ≡ some u → is_leased p u ≡ true
  pub now : p'.leased ≡ insert Text-discrete url tt p.leased
  pub same_proxies : p'.proxies ≡ p.proxies
  pub moved : p'.cursor ≡ ((p.cursor + round) % length p.proxies + 1) % length p.proxies

-- The pool after `url` is handed out in round `i`.
abbrev hand_out : Pool → ℕ → Text → Pool
hand_out p i url = record p {
  leased = insert Text-discrete url tt p.leased;
  cursor = ((p.cursor + i) % length p.proxies + 1) % length p.proxies;
}

pub acquire_from_busy :
    (left i : ℕ) (p : Pool) {u : Text}
    → candidate p i ≡ some u
    → is_leased p u ≡ true
    → acquire_from (suc left) i p ≡ acquire_from left (i + 1) p
unfolding acquire_from
acquire_from_busy left i p c busy = rw (c, acquire_from) (rw busy)

pub acquire_from_free :
    (left i : ℕ) (p : Pool) {u : Text}
    → candidate p i ≡ some u
    → is_leased p u ≡ false
    → acquire_from (suc left) i p ≡ some (u, hand_out p i u)
unfolding acquire_from
acquire_from_free left i p c free = rw (c, acquire_from) (rw free)

pub acquire_from-none :
    (left i : ℕ) (p : Pool) → candidate p i ≡ none → acquire_from (suc left) i p ≡ none
unfolding acquire_from
acquire_from-none left i p c = rw (c, acquire_from)

at_first_round :
    (i : ℕ) (p : Pool) {u : Text}
    → candidate p i ≡ some u
    → is_leased p u ≡ false
    → Taken p i u (hand_out p i u)
at_first_round i p c free = record {
  round = i;
  not_before = omega arith;
  at = c;
  was_free = free;
  first = λ k u h h' e. absurd (omega arith);
  now = refl;
  same_proxies = refl;
  moved = refl;
}

after_busy_round :
    (i : ℕ) (p : Pool) {u url : Text} {p' : Pool}
    → candidate p i ≡ some u
    → is_leased p u ≡ true
    → Taken p (i + 1) url p'
    → Taken p i url p'
after_busy_round i p {u} {url} {p'} c busy t = record {
  round = t.round;
  not_before = omega (arith, t.not_before);
  at = t.at;
  was_free = t.was_free;
  first = first;
  now = t.now;
  same_proxies = t.same_proxies;
  moved = t.moved;
}
  where
    first : (k : ℕ) (w : Text) → i ≤ k → k < t.round → candidate p k ≡ some w → is_leased p w ≡ true
    first k w h h' e = elim (ℕ_discrete i k) [
      | yes now ↦
          let again : some w ≡ some u = sym e ∙ ap (candidate p) (sym now) ∙ c in
          let same : w ≡ u = cc in ap (is_leased p) same ∙ busy
      | no later ↦ t.first k w (omega arith) h' e
    ]

acquire_from-Taken :
    (left i : ℕ) (p : Pool) {url : Text} {p' : Pool}
    → acquire_from left i p ≡ some (url, p')
    → Taken p i url p'
unfolding acquire_from
acquire_from-Taken zero i p e = cc
acquire_from-Taken (suc left) i p {url} {p'} e = elim (Option-cases (candidate p i)) [
  | inl missing ↦ cc (acquire_from-none left i p missing)
  | inr (u, c) ↦ elim (Bool-cases (is_leased p u)) [
    | inl busy ↦
        after_busy_round i p c busy
          (acquire_from-Taken left (i + 1) p (sym (acquire_from_busy left i p c busy) ∙ e))
    | inr free ↦
        let again : ◌≡◌ {A = Option (Text × Pool)} (some (u, hand_out p i u)) (some (url, p')) =
          sym (acquire_from_free left i p c free) ∙ e in
        let same : ◌≡◌ {A = Text × Pool} (u, hand_out p i u) (url, p') = cc in
        subst (λ r. Taken p i r.0 r.1) same (at_first_round i p c free)
  ]
]

-- `Acquire` hands out the first proxy from the cursor on, round the list, that is not leased. It
-- is then leased, the other leases and the proxies are as before, and the cursor stands after it.
pub acquire-Taken :
    (p : Pool) {l : Lease} {p' : Pool}
    → acquire false p ≡ ok (l, p')
    → (l.released ≡ false) × Taken p 0 l.url p'
unfolding acquire
acquire-Taken p {l} {p'} e = elim (Bool-cases (length p.proxies == 0)) [
  | inl empty ↦ absurd (ground arith)
  | inr some_left ↦ elim (Option-cases (acquire_from (length p.proxies) 0 p)) [
    | inl nothing ↦ absurd (ground arith)
    | inr ((url, q), found) ↦
        let taken = acquire_from-Taken (length p.proxies) 0 p found in
        let same : url ≡ l.url = ground arith in
        let same' : q ≡ p' = ground arith in
        (ground arith, subst (λ u. Taken p 0 u p') same (subst (Taken p 0 url) same' taken))
  ]
]
