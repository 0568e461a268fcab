-- ===== src/Payload.antt =====
-- go-ingestion/internal/payload/inmem/store.go: raw match data by key, each entry with the time at
-- which it expires. Times are a count from some start; an entry that never expires has none.
pub mod Expiry
use dota2_analysis.Base.{
  ℕ, ◌+◌, Bool, false, List, [], Option, none, some, ltb, ◌==◌, if◌then◌else◌, length, Map, lookup,
  insert, delete,
}
use dota2_analysis.Base.Text.{Text, Text-discrete}

pub record Entry : Type 0 where
  pub content : List ℕ
  pub expires_at : Option ℕ

pub record Store : Type 0 where
  pub m : Map Text Entry

unfoldable pub new : Store
new = record { m = [] }

-- A time to live of 0 or less, here 0, keeps the entry for ever.
unfoldable pub put : ℕ → Text → List ℕ → ℕ → Store → Store
put now key content ttl s =
    let exp = if ltb 0 ttl then some (now + ttl) else none in
    record { m = insert Text-discrete key (record { content = content; expires_at = exp }) s.m }

-- `!e.expiresAt.IsZero() && time.Now().After(e.expiresAt)`
unfoldable pub is_expired : ℕ → Entry → Bool
is_expired now e = elim e.expires_at [ none ↦ false | some t ↦ ltb t now ]

-- `none` is `ErrNotFound`. An entry that has expired is deleted by the way.
unfoldable pub get : ℕ → Text → Store → Option (List ℕ) × Store
unfolding is_expired
get now key s = elim (lookup Text-discrete key s.m) [
  | none ↦ (none, s)
  | some e ↦
      if is_expired now e
      then (none, record { m = delete Text-discrete key s.m })
      else (some e.content, s)
]

unfoldable pub remove : Text → Store → Store
remove key s = record { m = delete Text-discrete key s.m }

-- `none` is `ErrNotFound`. The entry is not checked for expiry; `hour` replaces a time of 0.
unfoldable pub extend_ttl : ℕ → ℕ → Text → ℕ → Store → Option Store
extend_ttl hour now key ttl s = elim (lookup Text-discrete key s.m) [
  | none ↦ none
  | some e ↦
      let t = if ltb 0 ttl then ttl else hour in
      some (record { m = insert Text-discrete key (record e { expires_at = some (now + t) }) s.m })
]

unfoldable pub len : Store → ℕ
len s = length s.m
