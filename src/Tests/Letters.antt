-- ===== src/Tests/Letters.antt =====
-- A small Redis server of lists for the tests: streams with their entries, and keys.
use mathlib.Core.List.{Memᴰ}
use dota2_analysis.Base.{
  ℕ, zero, suc, ◌≤◌, ◌<◌, ◌+◌, ◌≡◌, ◌≢◌, refl, sym, ap, ◌∙◌, Bool, true, false, ◌||◌, ◌⊎◌, inl, inr,
  List, [], ◌∷◌, Option, none, some, arith, map, length, Map, pos, Bool-cases, if◌then◌else◌,
}
use dota2_analysis.Base.Text.{Text, codes}
use dota2_analysis.Discovery.{scalar, integer}
use dota2_analysis.RedisQueue.{Value, XMessage}
use dota2_analysis.DeadLetters.{Store}
use dota2_analysis.DeadLetters.Guard.{Guards}
use dota2_analysis.DeadLetters.Kept.{Contents}
use dota2_analysis.Tests.Redis.{remove_by, is_text, is_entry}

pub record Db : Type 0 where
  pub entries : List (Text × Text × Map Text Value)
  pub keys : List Text

unfoldable pub find : Text → Text → List (Text × Text × Map Text Value) → Option (Map Text Value)
unfolding is_entry
find stream id [] = none
find stream id (e ∷ es) = if is_entry stream id e then some e.2 else find stream id es

unfoldable pub or_empty : Option (Map Text Value) → Map Text Value
or_empty none = []
or_empty (some v) = v

unfoldable pub ids_of : Text → List (Text × Text × Map Text Value) → List Text
unfolding is_text
ids_of stream [] = []
ids_of stream (e ∷ es) =
    let rest = ids_of stream es in if is_text e.0 stream then e.1 ∷ rest else rest

unfoldable pub total : List (Text × Text × Map Text Value) → ℕ
total [] = 0
total (e ∷ es) = length e.1 + total es

unfoldable pub zeros : ℕ → Text
zeros zero = []
zeros (suc n) = 48 ∷ zeros n

unfoldable pub delete_all :
    Text → List Text → List (Text × Text × Map Text Value) → List (Text × Text × Map Text Value)
unfolding remove_by is_entry
delete_all stream [] es = es
delete_all stream (id ∷ ids) es = delete_all stream ids (remove_by (is_entry stream id) es)

unfoldable pub is_set : Text → List Text → Bool
unfolding is_text
is_set key [] = false
is_set key (k ∷ ks) = is_text k key || is_set key ks

unfoldable pub put_key : Bool → Text → Db → Bool × Db
put_key true key db = (false, db)
put_key false key db = (true, record db { keys = key ∷ db.keys })

-- A new entry has an id longer than all others; every payload is the object of the match 7.
abbrev pub redis : Store
redis = record {
  Db = Db;
  object = λ p. some ((codes "match_id", scalar (integer (pos 7))) ∷ []);
  xrevrange = λ stream count db.
      map (λ i. record { id = i; values = or_empty (find stream i db.entries) })
        (ids_of stream db.entries);
  setnx = λ key ttl db. put_key (is_set key db.keys) key db;
  del = λ key db. record db { keys = remove_by (λ k. is_text k key) db.keys };
  xadd = λ stream n v db. (
    zeros (suc (total db.entries)),
    record db { entries = (stream, zeros (suc (total db.entries)), v) ∷ db.entries },
  );
  xdel = λ stream ids db. (length ids, record db { entries = delete_all stream ids db.entries });
}

length-zeros : (n : ℕ) → length (zeros n) ≡ n
unfolding zeros
length-zeros zero = refl
length-zeros (suc n) = ap suc (length-zeros n)

is_entry-eq :
    (stream id : Text) (e : Text × Text × Map Text Value)
    → is_entry stream id e ≡ true
    → (e.0 ≡ stream) × (e.1 ≡ id)
unfolding is_entry is_text
is_entry-eq stream id e t = ground arith

find-none :
    (stream id : Text) (es : List (Text × Text × Map Text Value))
    → total es < length id
    → find stream id es ≡ none
unfolding find total
find-none stream id [] lt = refl
find-none stream id (e ∷ es) lt = elim (Bool-cases (is_entry stream id e)) [
  | inl t ↦ let same = ap length (is_entry-eq stream id e t).1 in absurd (omega arith)
  | inr f ↦ rw (f, find) (find-none stream id es (omega arith))
]

pub find_new :
    (stream id : Text) (v : Map Text Value) (es : List (Text × Text × Map Text Value))
    → find stream id ((stream, id, v) ∷ es) ≡ some v
unfolding find is_entry is_text
find_new stream id v es = ground arith

pub find_old :
    (stream st i : Text) (u v : Map Text Value) (es : List (Text × Text × Map Text Value))
    → find st i es ≡ some v
    → find st i ((stream, zeros (suc (total es)), u) ∷ es) ≡ some v
unfolding find
find_old stream st i u v es old =
    elim (Bool-cases (is_entry st i (stream, zeros (suc (total es)), u))) [
      | inr f ↦ rw (f, find) old
      | inl t ↦
          let lengths =
            sym (length-zeros (suc (total es)))
            ∙ ap length (is_entry-eq st i (stream, zeros (suc (total es)), u) t).1 in
          absurd (ground (arith, find-none st i es (omega arith), old))
    ]

find_hit :
    (st i : Text) (x : Text × Text × Map Text Value) (es : List (Text × Text × Map Text Value))
    → is_entry st i x ≡ true
    → find st i (x ∷ es) ≡ some x.2
unfolding find
find_hit st i x es t = rw (t, find) refl

find_miss :
    (st i : Text) (x : Text × Text × Map Text Value) (es : List (Text × Text × Map Text Value))
    → is_entry st i x ≡ false
    → find st i (x ∷ es) ≡ find st i es
unfolding find
find_miss st i x es f = rw (f, find) refl

find_kept :
    (stream id st i : Text) (v : Map Text Value) (es : List (Text × Text × Map Text Value))
    → (st ≢ stream) ⊎ (i ≢ id)
    → find st i es ≡ some v
    → find st i (remove_by (is_entry stream id) es) ≡ some v
unfolding find remove_by
find_kept stream id st i v [] apart e = e
find_kept stream id st i v (x ∷ es) apart e = elim (Bool-cases (is_entry st i x)) [
  | inl t ↦ elim (Bool-cases (is_entry stream id x)) [
    | inl gone ↦
        let (p, q) = is_entry-eq st i x t in
        let (p', q') = is_entry-eq stream id x gone in
        absurd (elim apart [ inl n ↦ n (sym p ∙ p') | inr n ↦ n (sym q ∙ q') ])
    | inr stays ↦ rw (stays, remove_by) (find_hit st i x _ t ∙ sym (find_hit st i x es t) ∙ e)
  ]
  | inr f ↦
      let ih = find_kept stream id st i v es apart (sym (find_miss st i x es f) ∙ e) in
      elim (Bool-cases (is_entry stream id x)) [
        | inl gone ↦ rw (gone, remove_by) ih
        | inr stays ↦ rw (stays, remove_by) (find_miss st i x _ f ∙ ih)
      ]
]

length-remove_by : {A : Type 0} (p : A → Bool) (xs : List A) → length (remove_by p xs) ≤ length xs
unfolding remove_by
length-remove_by p [] = omega arith
length-remove_by p (x ∷ xs) =
    let ih = length-remove_by p xs in
    elim (Bool-cases (p x)) [
      | inl t ↦ rw (t, remove_by) (omega arith)
      | inr f ↦ rw (f, remove_by) (omega arith)
    ]

pub values_of :
    (stream id : Text) (v : Map Text Value) (m : XMessage)
    (es : List (Text × Text × Map Text Value)) (ids : List Text)
    → find stream id es ≡ some v
    → Memᴰ m (map (λ i. record { id = i; values = or_empty (find stream i es) }) ids)
    → m.id ≡ id
    → m.values ≡ v
unfolding or_empty
values_of stream id v m es [] found mem here = elim mem [ ]
values_of stream id v m es (i ∷ ids) found (Memᴰ.head e) here =
    ap (λ x. x.values) e
    ∙ ap (λ j. or_empty (find stream j es)) (sym (ap (λ x. x.id) e) ∙ here)
    ∙ ap or_empty found
values_of stream id v m es (i ∷ ids) found (Memᴰ.tail mem) here =
    values_of stream id v m es ids found mem here

pub find_deleted :
    (stream id st i : Text) (v : Map Text Value) (es : List (Text × Text × Map Text Value))
    → (st ≢ stream) ⊎ (i ≢ id)
    → find st i es ≡ some v
    → find st i (delete_all stream (id ∷ []) es) ≡ some v
unfolding delete_all
find_deleted stream id st i v es apart e = find_kept stream id st i v es apart e

pub length_deleted :
    (stream id : Text) (es : List (Text × Text × Map Text Value))
    → length (delete_all stream (id ∷ []) es) ≤ length es
unfolding delete_all
length_deleted stream id es = length-remove_by (is_entry stream id) es

pub set_key_again :
    (key : Text) (db : Db)
    → is_set key db.keys ≡ true
    → put_key (is_set key db.keys) key db ≡ (false, db)
unfolding put_key
set_key_again key db h = rw (h, put_key) refl

pub setnx-entries :
    (b : Bool) (key : Text) (db : Db) (P : List (Text × Text × Map Text Value) → Type 0)
    → P db.entries
    → P (put_key b key db).1.entries
unfolding put_key
setnx-entries true key db P p = p
setnx-entries false key db P p = p

pub is_text_refl : (a : Text) → is_text a a ≡ true
unfolding is_text
is_text_refl a = ground arith

pub set_key_sets :
    (key : Text) (db : Db) → is_set key (put_key (is_set key db.keys) key db).1.keys ≡ true
unfolding put_key is_set
set_key_sets key db = elim (Bool-cases (is_set key db.keys)) [
  | inl t ↦ rw (t, put_key) t
  | inr f ↦ rw (f, put_key) (rw (is_text_refl key, is_set) refl)
]

abbrev pub contents : Contents redis
contents = record {
  Entry = λ db stream id v. find stream id db.entries ≡ some v;
  Room = λ db stream n free. length db.entries + free ≤ n;
  listed = λ stream id count v m db e mem here.
      values_of stream id v m db.entries (ids_of stream db.entries) e mem here;
  xadd_entry =
      λ stream n free v db room. find_new stream (zeros (suc (total db.entries))) v db.entries;
  xadd_keeps = λ stream st i n free v u db room e. find_old stream st i u v db.entries e;
  xadd_room = λ stream n free u db room. omega arith;
  xdel_entry = λ stream id st i v db apart e. find_deleted stream id st i v db.entries apart e;
  xdel_room = λ stream id st n free db room.
      let shorter = length_deleted stream id db.entries in omega arith;
  room_less = λ st n free db room. omega arith;
  setnx_entry = λ key st i ttl v db e.
      setnx-entries (is_set key db.keys) key db (λ es. find st i es ≡ some v) e;
  setnx_room = λ key st ttl n free db room.
      setnx-entries (is_set key db.keys) key db (λ es. length es + free ≤ n) room;
  del_entry = λ key st i v db e. e;
  del_room = λ key st n free db room. room;
}

abbrev pub guards : Guards redis
guards = record {
  HasKey = λ db key. is_set key db.keys ≡ true;
  setnx_sets = λ key ttl db. set_key_sets key db;
  setnx_again = λ key ttl db h. set_key_again key db h;
  xadd_key = λ key stream n u db h. h;
  xdel_key = λ key stream ids db h. h;
}
