-- ===== src/Decode/Series.antt =====
-- `expandTimeseries` of go-ingestion/internal/worker/parser/decode_players.go.
use dota2_analysis.Base.{
  ℕ, zero, suc, ◌+◌, Bool, false, ◌&&◌, List, [], ◌∷◌, ◌++◌, Option, none, some, ltb, if◌then◌else◌,
  length, ℤ, pos,
}
use dota2_analysis.Decode.{RawPlayer, deref, int16, safe_idx, safe_idx_small}

pub record TimeseriesRow : Type 0 where
  pub player_slot : ℤ
  pub minute : ℤ
  pub hero_id : ℤ
  pub account_id : ℤ
  pub patch_id : ℤ
  pub gold : ℤ
  pub xp : ℤ
  pub lh : ℤ
  pub dn : ℤ

-- `if len(s) > maxMin { maxMin = len(s) }`
unfoldable pub longer : ℕ → List ℤ → ℕ
longer n s = if ltb n (length s) then length s else n

unfoldable pub max_min : RawPlayer → ℕ
unfolding longer
max_min p = longer (longer (longer (longer (length p.times) p.gold_t) p.xp_t) p.lh_t) p.dn_t

unfoldable pub is_nil : Option ℤ → Bool
is_nil none = Bool.true
is_nil (some z) = false

-- The row of a minute; none where no series has a value.
unfoldable pub row : RawPlayer → ℕ → Option TimeseriesRow
unfolding is_nil safe_idx safe_idx_small deref int16
row p min =
    let gold = safe_idx p.gold_t min in
    let xp = safe_idx p.xp_t min in
    let lh = safe_idx_small p.lh_t min in
    let dn = safe_idx_small p.dn_t min in
    if is_nil gold && (is_nil xp && (is_nil lh && is_nil dn))
    then none
    else some (record {
      player_slot = p.player_slot;
      minute = int16 (pos min);
      hero_id = p.hero_id;
      account_id = deref p.account_id;
      patch_id = deref p.patch_id;
      gold = deref gold;
      xp = deref xp;
      lh = deref lh;
      dn = deref dn;
    })

unfoldable pub cons_row : Option TimeseriesRow → List TimeseriesRow → List TimeseriesRow
cons_row none rows = rows
cons_row (some r) rows = r ∷ rows

-- The loop over the minutes from `min` on, of which so many are left.
unfoldable pub rows_from : RawPlayer → (left min : ℕ) → List TimeseriesRow
unfolding row cons_row
rows_from p zero min = []
rows_from p (suc left) min = cons_row (row p min) (rows_from p left (min + 1))

unfoldable pub expand_timeseries : List RawPlayer → List TimeseriesRow
unfolding max_min rows_from
expand_timeseries [] = []
expand_timeseries (p ∷ players) = rows_from p (max_min p) 0 ++ expand_timeseries players
