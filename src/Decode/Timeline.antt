-- ===== src/Decode/Timeline.antt =====
-- The rows of a timeseries, player by player and minute by minute.
use Prim.Native.Nat.{max, min}
use dota2_analysis.Base.{
  ℕ, zero, suc, ◌+◌, ◌-◌, ◌≤◌, ◌<◌, ◌≡◌, refl, sym, ap, Bool, true, false, ◌&&◌, inl, inr, List, [],
  ◌∷◌, ◌++◌, Option, none, some, ltb, leb, map, length, get_elem?, Bool-cases, ℤ, pos, negsuc, All,
  arith,
}
use dota2_analysis.Decode.{RawPlayer, deref, int16, cap_int16, capped_idx, safe_idx, safe_idx_small}
use dota2_analysis.Decode.Series.{
  TimeseriesRow, longer, max_min, is_nil, row, cons_row, rows_from, expand_timeseries,
}

-- The minutes for which one of the four series of a player has a value.
abbrev pub span : RawPlayer → ℕ
span p = max (max (length p.gold_t) (length p.xp_t)) (max (length p.lh_t) (length p.dn_t))

-- A count as the row has it: a smallint holds 32,767 at most.
abbrev pub smallint : ℤ → ℤ
smallint (pos n) = pos (min n 32767)
smallint (negsuc n) = negsuc n

abbrev pub IsAboveMin : ℤ → Type 0
IsAboveMin (pos n) = Unit
IsAboveMin (negsuc n) = n < 32768

-- No last hits or denies below -32,768, and no more minutes than a smallint can number.
abbrev pub IsInRange : RawPlayer → Type 0
IsInRange p = (span p ≤ 32768) × All IsAboveMin p.lh_t × All IsAboveMin p.dn_t

-- The row of a minute, with 0 for a series that has ended.
abbrev pub row_at : RawPlayer → ℕ → TimeseriesRow
row_at p min = record {
  player_slot = p.player_slot;
  minute = pos min;
  hero_id = p.hero_id;
  account_id = deref p.account_id;
  patch_id = deref p.patch_id;
  gold = deref (get_elem? p.gold_t min);
  xp = deref (get_elem? p.xp_t min);
  lh = smallint (deref (get_elem? p.lh_t min));
  dn = smallint (deref (get_elem? p.dn_t min));
}

abbrev pub minutes : (from count : ℕ) → List ℕ
minutes from zero = []
minutes from (suc count) = from ∷ minutes (from + 1) count

abbrev pub timelines : List RawPlayer → List TimeseriesRow
timelines [] = []
timelines (p ∷ players) = map (row_at p) (minutes 0 (span p)) ++ timelines players

is_nil-get_elem? : (s : List ℤ) (i : ℕ) → is_nil (get_elem? s i) ≡ leb (length s) i
unfolding is_nil
is_nil-get_elem? [] i = ground arith
is_nil-get_elem? (v ∷ s) zero = ground arith
is_nil-get_elem? (v ∷ s) (suc i) = ground (arith, is_nil-get_elem? s i)

is_nil-capped_idx : (v : Option ℤ) → is_nil (capped_idx v) ≡ is_nil v
unfolding is_nil capped_idx
is_nil-capped_idx none = refl
is_nil-capped_idx (some z) = refl

cap_int16-smallint : (z : ℤ) → IsAboveMin z → cap_int16 z ≡ smallint z
unfolding cap_int16 int16
cap_int16-smallint (pos n) h = ground arith
cap_int16-smallint (negsuc n) h = ground arith

deref-capped_idx :
    (s : List ℤ) (i : ℕ)
    → All IsAboveMin s
    → deref (capped_idx (get_elem? s i)) ≡ smallint (deref (get_elem? s i))
unfolding deref capped_idx
deref-capped_idx [] i h = refl
deref-capped_idx (v ∷ s) zero h = cap_int16-smallint v h.0
deref-capped_idx (v ∷ s) (suc i) h = deref-capped_idx s i h.1

int16-pos : (n : ℕ) → n < 32768 → int16 (pos n) ≡ pos n
unfolding int16
int16-pos n h = ground arith

abbrev all_nil : RawPlayer → ℕ → Bool
all_nil p min =
    is_nil (safe_idx p.gold_t min)
    && (is_nil (safe_idx p.xp_t min)
        && (is_nil (safe_idx_small p.lh_t min) && is_nil (safe_idx_small p.dn_t min)))

all_nil-span : (p : RawPlayer) (min : ℕ) → all_nil p min ≡ leb (span p) min
unfolding safe_idx safe_idx_small
all_nil-span p min = ground (
  arith,
  is_nil-get_elem? p.gold_t min,
  is_nil-get_elem? p.xp_t min,
  is_nil-capped_idx (get_elem? p.lh_t min),
  is_nil-get_elem? p.lh_t min,
  is_nil-capped_idx (get_elem? p.dn_t min),
  is_nil-get_elem? p.dn_t min,
)

row_lt : (p : RawPlayer) (min : ℕ) → IsInRange p → min < span p → row p min ≡ some (row_at p min)
unfolding row safe_idx safe_idx_small
row_lt p min (short, lh, dn) h =
    let ended : leb (span p) min ≡ false = ground arith in
    rw (all_nil-span p min, row)
      (rw (ended, row)
        (rw
          (
            deref-capped_idx p.lh_t min lh,
            deref-capped_idx p.dn_t min dn,
            int16-pos min (omega (arith, short, h)),
          )
          refl))

row_ge : (p : RawPlayer) (min : ℕ) → span p ≤ min → row p min ≡ none
unfolding row safe_idx safe_idx_small
row_ge p min h =
    let ended : leb (span p) min ≡ true = ground arith in
    rw (all_nil-span p min, row) (rw (ended, row) refl)

minutes_succ :
    (from end : ℕ)
    → from < end
    → minutes from (end - from) ≡ from ∷ minutes (from + 1) (end - (from + 1))
minutes_succ from end h =
    let left : end - from ≡ suc (end - (from + 1)) = omega arith in ap (minutes from) left

minutes_none : (from end : ℕ) → end ≤ from → minutes from (end - from) ≡ []
minutes_none from end h = let left : end - from ≡ 0 = omega arith in ap (minutes from) left

rows_from_lem :
    (p : RawPlayer) (left min : ℕ)
    → IsInRange p
    → span p ≤ min + left
    → rows_from p left min ≡ map (row_at p) (minutes min (span p - min))
unfolding rows_from cons_row
rows_from_lem p zero min range h =
    sym (ap (map (row_at p)) (minutes_none min (span p) (omega arith)))
rows_from_lem p (suc left) min range h =
    let rest = rows_from_lem p left (min + 1) range (omega arith) in
    elim (Bool-cases (ltb min (span p))) [
      | inl l ↦
          rw (row_lt p min range (ground arith), cons_row)
            (rw rest (rw (minutes_succ min (span p) (ground arith)) refl))
      | inr g ↦
          rw (row_ge p min (ground arith), cons_row)
            (rw rest (
              rw (minutes_none min (span p) (ground arith))
                (rw (minutes_none (min + 1) (span p) (ground arith)) refl)))
    ]

span-max_min : (p : RawPlayer) → span p ≤ 0 + max_min p
unfolding max_min longer
span-max_min p = ground arith

-- Where no last hits or denies are below -32,768 and no series of a player has more than 32,768 minutes,
-- the timeseries of a match has, player by player, one row for each minute for which one of the four
-- series of the player (gold, experience, last hits and denies) has a value, from 0 on and in order: it
-- has the minute and the numbers of the series at that minute, last hits and denies above 32,767 as
-- 32,767, and 0 where a series has ended. The loop, which runs to the longest of five series, adds no
-- row for the times alone.
pub expand_timeseries_lem :
    (players : List RawPlayer)
    → All IsInRange players
    → expand_timeseries players ≡ timelines players
unfolding expand_timeseries
expand_timeseries_lem [] range = refl
expand_timeseries_lem (p ∷ players) range =
    let whole : span p - 0 ≡ span p = omega arith in
    rw (rows_from_lem p (max_min p) 0 range.0 (span-max_min p))
      (rw whole (rw (expand_timeseries_lem players range.1) refl))
