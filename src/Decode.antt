-- ===== src/Decode.antt =====
-- go-ingestion/internal/worker/parser/decode.go: the JSON of a match, and the helpers for values that
-- may be missing. The children hold the rest of the decoder.
pub mod Raw
pub mod Players
pub mod Series
pub mod Events
pub mod Domain
pub mod Root
pub mod WellFormed
pub mod Timeline
pub use dota2_analysis.Decode.Raw.{
  RawPlayer, RawPickBan, RawDraftTiming, RawObjective, RawChat, RawTeamfight, RawMatch,
}
use dota2_analysis.Base.{
  ℕ, ◌-◌, ◌%◌, Bool, true, false, not, ◌⊎◌, List, Option, none, some, ltb, ◌==◌, if◌then◌else◌,
  get_elem?, ℤ, pos, negsuc,
}
use dota2_analysis.Base.Text.{Text}
use dota2_analysis.Handlers.{HandlerError}

-- `json.Unmarshal` into a task, a match, an objective, a string and an int.
pub record Json : Type 0 where
  pub task : Text → HandlerError ⊎ ℤ
  pub whole_match : Text → HandlerError ⊎ RawMatch
  pub objective : Text → Option RawObjective
  pub string : Text → Option Text
  pub int : Text → Option ℤ

-- `deref64`, `deref32` and `deref16`
unfoldable pub deref : Option ℤ → ℤ
deref none = pos 0
deref (some z) = z

unfoldable pub deref_bool : Option Bool → Bool
deref_bool none = false
deref_bool (some b) = b

-- The bits of 0 are 0.
unfoldable pub deref_f32 : Option ℕ → ℕ
deref_f32 none = 0
deref_f32 (some x) = x

unfoldable pub deref_str : Option Text → Text
deref_str none = List.[]
deref_str (some s) = s

unfoldable pub is_nonzero : ℤ → Bool
is_nonzero (pos n) = not (n == 0)
is_nonzero (negsuc n) = true

unfoldable pub dec_to_bool : Option ℤ → Option Bool
unfolding is_nonzero
dec_to_bool none = none
dec_to_bool (some z) = some (is_nonzero z)

-- `int16(v)`, which keeps the last sixteen bits.
unfoldable pub int16 : ℤ → ℤ
int16 (pos n) = let m = n % 65536 in if ltb m 32768 then pos m else negsuc (65535 - m)
int16 (negsuc n) = let m = n % 65536 in if ltb m 32768 then negsuc m else pos (65535 - m)

unfoldable pub safe_idx : List ℤ → ℕ → Option ℤ
safe_idx s i = get_elem? s i

-- A value above `math.MaxInt16` is capped.
unfoldable pub cap_int16 : ℤ → ℤ
unfolding int16
cap_int16 (pos n) = int16 (pos (if ltb 32767 n then 32767 else n))
cap_int16 (negsuc n) = int16 (negsuc n)

unfoldable pub capped_idx : Option ℤ → Option ℤ
unfolding cap_int16
capped_idx none = none
capped_idx (some v) = some (cap_int16 v)

unfoldable pub safe_idx_small : List ℤ → ℕ → Option ℤ
unfolding capped_idx
safe_idx_small s i = capped_idx (get_elem? s i)
