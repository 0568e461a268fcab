-- ===== src/Base/Text.antt =====
-- Go strings as lists of bytes, and the `%d` verb of `fmt.Sprintf` (also `strconv.Itoa`).
use Prim.Native.Nat.{ℕ, zero, suc, ◌+◌, ◌-◌, ◌*◌, ◌/◌, ◌%◌, ◌<◌}
use Prim.Native.Char.{code}
use Prim.Native.String.{String}
use mathlib.Core.Path.{◌≡◌, refl, sym, ap, ◌∙◌}
use mathlib.Core.List.{List, [], ◌∷◌}
use native.Mathlib.Decide.{ℕ_discrete}
use native.Mathlib.Omega.{arith}
use dota2_analysis.Base.Tests.{ltb, if◌then◌else◌}

abbrev pub Text : Type 0
Text = List ℕ

unfoldable pub Text-discrete : Discrete Text
Text-discrete = hlevel ℕ_discrete

-- The bytes of an ASCII literal.
abbrev pub codes : String → Text
codes String.[] = []
codes (String.◌∷◌ c s) = code c ∷ codes s

-- The digits of a number, most significant first, in front of `acc`. The fuel bounds the digits.
unfoldable pub decimal_from : ℕ → ℕ → Text → Text
decimal_from zero n acc = acc
decimal_from (suc fuel) n acc =
    let rest = decimal_from fuel (n / 10) ((48 + n % 10) ∷ acc) in
    if ltb n 10 then (48 + n) ∷ acc else rest

unfoldable pub decimal : ℕ → Text
unfolding decimal_from
decimal n = decimal_from (suc n) n []

value_from : ℕ → Text → ℕ
value_from v [] = v
value_from v (c ∷ cs) = value_from (v * 10 + (c - 48)) cs

value_from-decimal_from :
    (fuel n : ℕ) (acc : Text) → n < fuel → value_from 0 (decimal_from fuel n acc) ≡ value_from n acc
unfolding decimal_from value_from
value_from-decimal_from zero n acc h = absurd (omega arith)
value_from-decimal_from (suc fuel) n acc h = ground (
  arith,
  value_from-decimal_from fuel (n / 10) ((48 + n % 10) ∷ acc),
  ap (λ v. value_from v acc) last_digit,
  ap (λ v. value_from v acc) next_digit,
)
  where
    last_digit : 0 * 10 + (48 + n - 48) ≡ n
    last_digit = omega arith

    next_digit : n / 10 * 10 + (48 + n % 10 - 48) ≡ n
    next_digit = omega arith

-- Different numbers print differently.
pub decimal-injective : (m n : ℕ) → decimal m ≡ decimal n → m ≡ n
unfolding decimal value_from
decimal-injective m n e =
    sym (value_from-decimal_from (suc m) m [] (omega arith))
    ∙ ap (value_from 0) e
    ∙ value_from-decimal_from (suc n) n [] (omega arith)

decimal_prints : decimal 1207 ≡ codes "1207"
unfolding decimal
decimal_prints = refl
