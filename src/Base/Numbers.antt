-- ===== src/Base/Numbers.antt =====
-- `strconv.Itoa`, `strconv.Atoi` and `strconv.ParseInt` to base 10 with 64 bits.
use dota2_analysis.Base.{
  ℕ, zero, suc, ◌+◌, ◌-◌, ◌*◌, ◌/◌, ◌%◌, ◌<◌, ◌≤◌, ◌≡◌, inl, inr, Bool-cases, ltb_iff, refl, sym,
  ap, ◌∙◌, ◌&&◌, [], ◌∷◌, Option, none, some, ltb, leb, ◌==◌, if◌then◌else◌, arith, ℤ, pos, negsuc,
}
use dota2_analysis.Base.Text.{Text, decimal, decimal_from}

unfoldable pub itoa : ℤ → Text
itoa (pos n) = decimal n
itoa (negsuc n) = 45 ∷ decimal (n + 1)

-- The value of a text of digits, most significant first.
unfoldable pub digits_from : ℕ → Text → Option ℕ
digits_from v [] = some v
digits_from v (c ∷ cs) = if leb 48 c && leb c 57 then digits_from (v * 10 + (c - 48)) cs else none

-- At least one digit, and nothing else.
unfoldable pub digits : Text → Option ℕ
unfolding digits_from
digits [] = none
digits (c ∷ cs) = digits_from 0 (c ∷ cs)

abbrev pub int_limit : ℕ
int_limit = 9223372036854775808

unfoldable pub in_range : Option ℕ → Option ℤ
in_range none = none
in_range (some n) = if ltb n int_limit then some (pos n) else none

unfoldable pub negated : Option ℕ → Option ℤ
negated none = none
negated (some zero) = some (pos 0)
negated (some (suc n)) = if ltb n int_limit then some (negsuc n) else none

unfoldable pub atoi : Text → Option ℤ
unfolding digits in_range negated
atoi [] = none
atoi (c ∷ cs) =
    if c == 45
    then negated (digits cs)
    else if c == 43
    then in_range (digits cs)
    else in_range (digits (c ∷ cs))

digits_from-decimal_from :
    (fuel n : ℕ) (acc : Text)
    → n < fuel
    → digits_from 0 (decimal_from fuel n acc) ≡ digits_from n acc
unfolding digits_from decimal_from
digits_from-decimal_from zero n acc h = absurd (omega arith)
digits_from-decimal_from (suc fuel) n acc h = elim (Bool-cases (ltb n 10)) [
  | inl small ↦ ground (arith, ap (λ v. digits_from v acc) last_digit)
  | inr large ↦ ground (
    arith,
    digits_from-decimal_from fuel (n / 10) ((48 + n % 10) ∷ acc),
    ap (λ v. digits_from v acc) next_digit,
  )
]
  where
    last_digit : 0 * 10 + (48 + n - 48) ≡ n
    last_digit = omega arith

    next_digit : n / 10 * 10 + (48 + n % 10 - 48) ≡ n
    next_digit = omega arith

-- The first byte of a printed number is a digit.
decimal_from-cons :
    (fuel n : ℕ) (acc : Text)
    → n < fuel
    → (c : ℕ) × (cs : Text) × (decimal_from fuel n acc ≡ c ∷ cs) × (48 ≤ c) × (c ≤ 57)
unfolding decimal_from
decimal_from-cons zero n acc h = absurd (omega arith)
decimal_from-cons (suc fuel) n acc h = elim (Bool-cases (ltb n 10)) [
  | inl small ↦ (48 + n, acc, rw (small, decimal_from) refl, ground arith, ground arith)
  | inr large ↦
      let (c, cs, e, low, high) =
        decimal_from-cons fuel (n / 10) ((48 + n % 10) ∷ acc) (ground arith) in
      (c, cs, rw (large, decimal_from) e, low, high)
]

digits-decimal : (n : ℕ) → digits (decimal n) ≡ some n
unfolding digits decimal digits_from
digits-decimal n =
    let (c, cs, e, _, _) = decimal_from-cons (suc n) n [] (omega arith) in
    ap digits e ∙ ap (digits_from 0) (sym e) ∙ digits_from-decimal_from (suc n) n [] (omega arith)

abbrev pub IsInt : ℤ → Type 0
IsInt (pos n) = n < int_limit
IsInt (negsuc n) = n < int_limit

pub atoi-itoa : (z : ℤ) → IsInt z → atoi (itoa z) ≡ some z
unfolding itoa atoi decimal in_range negated
atoi-itoa (pos n) h =
    let (c, cs, e, low, high) = decimal_from-cons (suc n) n [] (omega arith) in
    let parsed : digits (c ∷ cs) ≡ some n = ap digits (sym e) ∙ digits-decimal n in
    ap atoi e ∙ first c cs low high parsed
  where
    first :
        (c : ℕ) (cs : Text)
        → 48 ≤ c
        → c ≤ 57
        → digits (c ∷ cs) ≡ some n
        → atoi (c ∷ cs) ≡ some (pos n)
    first c cs low high parsed = ground (arith, (ltb_iff n int_limit).1 h)
atoi-itoa (negsuc n) h =
    let same : n + 1 ≡ suc n = omega arith in
    let parsed : digits (decimal (n + 1)) ≡ some (suc n) = digits-decimal (n + 1) ∙ ap some same in
    ap negated parsed ∙ ground (arith, (ltb_iff n int_limit).1 h)
