-- ===== src/Discovery/Parsed.antt =====
-- The references that `parseMatchRefs` makes, and the turns of the loop that fetches them.
use dota2_analysis.Base.{
  ℕ, zero, suc, ◌≤◌, ◌<◌, ◌*◌, ◌≡◌, refl, true, inl, inr, List, [], ◌∷◌, ◌++◌, Option, none, some,
  All, arith, Map, lookup, ℤ, pos, negsuc,
}
use dota2_analysis.Base.Numbers.{atoi}
use dota2_analysis.Base.Text.{Text, Text-discrete, codes}
use dota2_analysis.Discovery.{
  MatchRef, Scalar, RawMessage, scalar, array, null, other, text, integer, positive, extract_id,
  raw_id, cons_id, legacy_refs, legacy_column, row_refs, parse_match_refs, Attempt, FetchError,
  found, fetch_match_refs, fetch_loop, on_fetched, max_backoff, capped, wait_after,
}

abbrev pub HasId : MatchRef → Type 0
HasId r = 0 < r.match_id

All-append : (xs ys : List MatchRef) → All HasId xs → All HasId ys → All HasId (xs ++ ys)
All-append [] ys a b = b
All-append (x ∷ xs) ys a b = (a.0, All-append xs ys a.1 b)

cons_id-positive :
    (z : Option ℤ) (start : ℤ) (refs : List MatchRef)
    → All HasId refs
    → All HasId (cons_id (positive z) start refs)
unfolding cons_id positive
cons_id-positive none start refs h = h
cons_id-positive (some (pos zero)) start refs h = h
cons_id-positive (some (pos (suc n))) start refs h = (omega arith, h)
cons_id-positive (some (negsuc n)) start refs h = h

cons_id-extract_id :
    (v : Scalar) (start : ℤ) (refs : List MatchRef)
    → All HasId refs
    → All HasId (cons_id (extract_id v) start refs)
unfolding extract_id cons_id
cons_id-extract_id (text s) start refs h = cons_id-positive (atoi s) start refs h
cons_id-extract_id (integer z) start refs h = cons_id-positive (some z) start refs h
cons_id-extract_id null start refs h = h
cons_id-extract_id other start refs h = h

cons_id-raw_id : (v : RawMessage) (start : ℤ) → All HasId (cons_id (raw_id v) start [])
unfolding raw_id cons_id
cons_id-raw_id (scalar v) start = cons_id-extract_id v start [] tt
cons_id-raw_id (array vs) start = tt

legacy_refs-HasId : (vs : List Scalar) → All HasId (legacy_refs vs)
unfolding legacy_refs
legacy_refs-HasId [] = tt
legacy_refs-HasId (v ∷ vs) = cons_id-extract_id v (pos 0) (legacy_refs vs) (legacy_refs-HasId vs)

legacy_column-HasId : (o : Option RawMessage) → All HasId (legacy_column o)
unfolding legacy_column
legacy_column-HasId none = tt
legacy_column-HasId (some (scalar v)) = tt
legacy_column-HasId (some (array vs)) = legacy_refs-HasId vs

row_refs-HasId : (o : Option RawMessage) (row : Map Text RawMessage) → All HasId (row_refs o row)
unfolding row_refs
row_refs-HasId none row = legacy_column-HasId (lookup Text-discrete (codes "match_ids") row)
row_refs-HasId (some rm) row = cons_id-raw_id rm _

-- Every match that is read from the answer of the explorer has an id above 0.
pub parse_match_refs-HasId : (rows : List (Map Text RawMessage)) → All HasId (parse_match_refs rows)
unfolding parse_match_refs
parse_match_refs-HasId [] = tt
parse_match_refs-HasId (row ∷ rows) =
    All-append _ (parse_match_refs rows)
      (row_refs-HasId (lookup Text-discrete (codes "match_id") row) row)
      (parse_match_refs-HasId rows)

-- A turn that fails while the context stays alive.
abbrev pub Fails : Attempt → Type 0
Fails a =
    (a.live ≡ true) × ((e : FetchError) × (fetch_match_refs a.answer ≡ inl e)) × (a.waits ≡ true)

pub fetch_loop_persists :
    (last : Option FetchError) (fails rest : List Attempt) (a : Attempt) (refs : List MatchRef)
    → All Fails fails
    → a.live ≡ true
    → fetch_match_refs a.answer ≡ inr refs
    → fetch_loop last (fails ++ a ∷ rest) ≡ found refs
unfolding fetch_loop on_fetched
fetch_loop_persists last [] rest a refs h live ok = rw (live, fetch_loop) (rw (ok, on_fetched) refl)
fetch_loop_persists last (f ∷ fails) rest a refs ((alive, (e, failed), waits), h) live ok =
    rw (alive, fetch_loop)
      (rw (failed, on_fetched)
        (rw (waits, on_fetched) (fetch_loop_persists (some e) fails rest a refs h live ok)))

capped_bounds : (limit b : ℕ) → 0 < limit → (0 < capped limit b) × (capped limit b ≤ limit)
unfolding capped
capped_bounds limit b h = ground arith

-- With a jitter below the backoff the loop waits less than thirty seconds between two attempts.
pub wait_after-lt :
    (retry_backoff attempt : ℕ) (jitter : ℕ → ℕ)
    → ((b : ℕ) → 0 < b → jitter b < b)
    → wait_after retry_backoff attempt jitter < max_backoff
unfolding wait_after
wait_after-lt retry_backoff attempt jitter small =
    let (above, below) = capped_bounds max_backoff (retry_backoff * attempt) (omega arith) in
    let less = small (capped max_backoff (retry_backoff * attempt)) above in omega arith
