-- ===== src/Payload/Expiry.antt =====
-- What `Get` finds, and until when.
use dota2_analysis.Base.{
  ℕ, ◌+◌, ◌≤◌, ◌≡◌, ◌≢◌, refl, sym, ap, ◌∙◌, ◌⊎◌, true, ◌&&◌, List, Option, none, some, inl, inr,
  ltb, if◌then◌else◌, lookup, insert, delete, lookup-insert, lookup-delete, if_pos, if_neg, arith,
  Bool-cases, Option-cases,
}
use dota2_analysis.Base.Text.{Text, Text-discrete}
use dota2_analysis.Payload.{Entry, Store, put, is_expired, get, remove, extend_ttl}

-- What a `Get` returns, from the entry that is stored.
abbrev found : ℕ → Option Entry → Option (List ℕ)
found now o = elim o [ none ↦ none | some e ↦ if is_expired now e then none else some e.content ]

get-found :
    (now : ℕ) (key : Text) (s : Store)
    → (get now key s).0 ≡ found now (lookup Text-discrete key s.m)
unfolding get
get-found now key s = ground arith

-- What was put is found until its time to live is over, and for ever when it has none; after that
-- it is not found.
pub get-put :
    (now later ttl : ℕ) (key : Text) (content : List ℕ) (s : Store)
    → (get later key (put now key content ttl s)).0
      ≡ (if ltb 0 ttl && ltb (now + ttl) later then none else some content)
unfolding put is_expired
get-put now later ttl key content s =
    get-found later key (put now key content ttl s)
    ∙ ap (found later)
        (lookup-insert Text-discrete key key entry s.m ∙ if_pos (Text-discrete key key) refl _ _)
    ∙ ground arith
  where
    entry : Entry
    entry = record { content = content; expires_at = if ltb 0 ttl then some (now + ttl) else none }

-- A `Put` does not change what is found under another key.
pub get-put_other :
    (now later ttl : ℕ) (key other : Text) (content : List ℕ) (s : Store)
    → key ≢ other
    → (get later other (put now key content ttl s)).0 ≡ (get later other s).0
unfolding put
get-put_other now later ttl key other content s n =
    get-found later other (put now key content ttl s)
    ∙ ap (found later)
        (lookup-insert Text-discrete key other _ s.m ∙ if_neg (Text-discrete key other) n _ _)
    ∙ sym (get-found later other s)

-- An extension counts from the time of the call, with an hour in place of no time to live. It finds
-- an entry that has expired and was not yet deleted, and makes it readable again.
pub get-extend_ttl :
    (hour now later ttl : ℕ) (key : Text) (s : Store) (e : Entry)
    → lookup Text-discrete key s.m ≡ some e
    → (s' : Store) × (extend_ttl hour now key ttl s ≡ some s')
      × ((get later key s').0
          ≡ (if ltb (now + (if ltb 0 ttl then ttl else hour)) later then none else some e.content))
unfolding extend_ttl is_expired
get-extend_ttl hour now later ttl key s e h = (
  s',
  rw (h, extend_ttl) refl,
  get-found later key s'
      ∙ ap (found later) (
          lookup-insert Text-discrete key key longer s.m ∙ if_pos (Text-discrete key key) refl _ _),
)
  where
    longer : Entry
    longer = record e { expires_at = some (now + (if ltb 0 ttl then ttl else hour)) }

    s' : Store
    s' = record { m = insert Text-discrete key longer s.m }

found_later :
    (now later : ℕ) (e : Entry)
    → now ≤ later
    → is_expired now e ≡ true
    → found later (some e) ≡ none
unfolding is_expired
found_later now later e h x = ground arith

abbrev without : Text → Store → Store
without key s = record { m = delete Text-discrete key s.m }

-- A `Get` changes nothing, unless it finds an entry that has expired.
get_state :
    (now : ℕ) (key : Text) (s : Store)
    → ((get now key s).1 ≡ s)
      ⊎ ((e : Entry) × (lookup Text-discrete key s.m ≡ some e)
          × (is_expired now e ≡ true)
          × ((get now key s).1 ≡ without key s))
unfolding get
get_state now key s = elim (Option-cases (lookup Text-discrete key s.m)) [
  | inl missing ↦ inl (rw (missing, get) refl)
  | inr (e, stored) ↦ elim (Bool-cases (is_expired now e)) [
    | inl old ↦ inr (e, stored, old, rw (stored, get) (rw old refl))
    | inr fresh ↦ inl (rw (stored, get) (rw fresh refl))
  ]
]

found-without :
    (now later : ℕ) (key other : Text) (s : Store) (e : Entry)
    → now ≤ later
    → lookup Text-discrete key s.m ≡ some e
    → is_expired now e ≡ true
    → found later (lookup Text-discrete other (without key s).m)
      ≡ found later (lookup Text-discrete other s.m)
found-without now later key other s e h stored old = elim (Text-discrete key other) [
  | yes same ↦
      ap (found later)
        (lookup-delete Text-discrete key other s.m ∙ if_pos (Text-discrete key other) same _ _)
      ∙ sym (
          ap (found later) (ap (λ k. lookup Text-discrete k s.m) (sym same) ∙ stored)
          ∙ found_later now later e h old)
  | no differ ↦
      ap (found later)
        (lookup-delete Text-discrete key other s.m ∙ if_neg (Text-discrete key other) differ _ _)
]

-- That `Get` deletes an entry that has expired is never seen: what a `Get` at the same time or later
-- finds, under this key or another, is the same.
pub get-get :
    (now later : ℕ) (key other : Text) (s : Store)
    → now ≤ later
    → (get later other (get now key s).1).0 ≡ (get later other s).0
get-get now later key other s h = elim (get_state now key s) [
  | inl same ↦ ap (λ s'. (get later other s').0) same
  | inr (e, stored, old, deleted) ↦
      ap (λ s'. (get later other s').0) deleted
      ∙ get-found later other (without key s)
      ∙ found-without now later key other s e h stored old
      ∙ sym (get-found later other s)
]

-- A `Delete` does not change what is found under another key.
pub get-remove_other :
    (now : ℕ) (key other : Text) (s : Store)
    → key ≢ other
    → (get now other (remove key s)).0 ≡ (get now other s).0
unfolding remove
get-remove_other now key other s n =
    get-found now other (remove key s)
    ∙ ap (found now)
        (lookup-delete Text-discrete key other s.m ∙ if_neg (Text-discrete key other) n _ _)
    ∙ sym (get-found now other s)

-- The store after an extension, which changes nothing where the key is missing.
abbrev pub extended : (hour now : ℕ) (key : Text) (ttl : ℕ) → Store → Store
extended hour now key ttl s = elim (extend_ttl hour now key ttl s) [ none ↦ s | some s' ↦ s' ]

found-some :
    (now : ℕ) (o : Option Entry) (c : List ℕ)
    → found now o ≡ some c
    → (e : Entry) × (o ≡ some e) × (e.content ≡ c)
unfolding is_expired
found-some now none c h = absurd (ground (arith, h))
found-some now (some e) c h = (e, refl, ground arith)

-- What can be read now can still be read now after an extension of any key.
pub get-extended :
    (hour now ttl : ℕ) (key other : Text) (s : Store) (c : List ℕ)
    → (get now other s).0 ≡ some c
    → (get now other (extended hour now key ttl s)).0 ≡ some c
unfolding extend_ttl is_expired
get-extended hour now ttl key other s c h = elim (Option-cases (lookup Text-discrete key s.m)) [
  | inl missing ↦ rw (missing, extended, extend_ttl) h
  | inr (e, stored) ↦
      let longer : Entry = record e {
        expires_at = some (now + (if ltb 0 ttl then ttl else hour));
      } in
      let s' : Store = record { m = insert Text-discrete key longer s.m } in
      let looked = lookup-insert Text-discrete key other longer s.m in
      rw (stored, extended, extend_ttl)
        (get-found now other s' ∙ elim (Text-discrete key other) [
          | yes same ↦
              ap (found now) (looked ∙ if_pos (Text-discrete key other) same _ _)
              ∙ (let (e', stored', content) =
                    found-some now (lookup Text-discrete other s.m) c
                      (sym (get-found now other s) ∙ h) in
                  let same_entry : some e ≡ some e' =
                    sym stored ∙ ap (λ k. lookup Text-discrete k s.m) same ∙ stored' in
                  ground arith)
          | no differ ↦
              ap (found now) (looked ∙ if_neg (Text-discrete key other) differ _ _)
              ∙ sym (get-found now other s)
              ∙ h
        ])
]

-- A key that has been deleted is not found.
pub get-remove : (now : ℕ) (key : Text) (s : Store) → (get now key (remove key s)).0 ≡ none
unfolding remove
get-remove now key s =
    get-found now key (remove key s)
    ∙ ap (found now)
        (lookup-delete Text-discrete key key s.m ∙ if_pos (Text-discrete key key) refl _ _)
