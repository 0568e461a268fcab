-- ===== src/Tests/Redis.antt =====
-- A small Redis server of lists for the tests: streams, one group's pending messages and sorted sets.
use mathlib.Core.List.{Memᴰ}
use dota2_analysis.Base.{
  ℕ, suc, ◌≡◌, ◌≢◌, refl, sym, ap, ◌∙◌, Bool, true, false, ◌⊎◌, inl, inr, List, [], ◌∷◌, some,
  arith, Map, Bool-cases, ◌&&◌, ℕ_discrete, if◌then◌else◌,
}
use dota2_analysis.Base.Text.{Text, Text-discrete, codes, decimal}
use dota2_analysis.RedisQueue.{Value, Member}
use dota2_analysis.RedisQueue.Client.{Server, nil_reply}
use dota2_analysis.RedisQueue.Loss.{Contents}
use dota2_analysis.RedisQueue.Promotion.{Additions}

pub Value-discrete : Discrete Value
Value-discrete = hlevel ℕ_discrete

unfoldable pub Member-discrete : Discrete Member
Member-discrete = hlevel ℕ_discrete

pub record Db : Type 0 where
  pub entries : List (Text × Text × Map Text Value)
  pub unacked : List (Text × Text × Text)
  pub members : List (Text × Member)
  pub next : ℕ

unfoldable pub remove_by : {A : Type 0} → (A → Bool) → List A → List A
remove_by p [] = []
remove_by p (x ∷ xs) = let rest = remove_by p xs in if p x then rest else x ∷ rest

unfoldable pub is_text : Text → Text → Bool
is_text a b = elim (Text-discrete a b) [ yes _ ↦ true | no _ ↦ false ]

unfoldable pub is_entry : Text → Text → Text × Text × Map Text Value → Bool
unfolding is_text
is_entry stream id e = is_text e.0 stream && is_text e.1 id

unfoldable pub is_member : Text → Member → Text × Member → Bool
unfolding is_text
is_member key m e = elim (Member-discrete m e.1) [ yes _ ↦ true | no _ ↦ false ]

unfoldable pub all_members : List (Text × Member) → List Member
all_members [] = []
all_members ((k, m) ∷ ms) = m ∷ all_members ms

abbrev pub server : Server
server = record {
  Db = Db;
  now = λ db. 0;
  xadd = λ stream limit v db. (
    decimal db.next,
    record db { entries = (stream, decimal db.next, v) ∷ db.entries; next = suc db.next },
  );
  xack = λ stream group id db. record db { unacked = remove_by (λ e. is_text e.2 id) db.unacked };
  xdel = λ stream id db. record db { entries = remove_by (is_entry stream id) db.entries };
  zadd = λ key score m db. record db { members = (key, m) ∷ db.members };
  zrem = λ key m db. record db { members = remove_by (is_member key m) db.members };
  xreadgroup = λ stream group consumer start count block db. (nil_reply, db);
  zrange_by_score = λ key max count db. some (all_members db.members);
  xautoclaim = λ stream group consumer idle start count db. (some ([], codes "0-0"), db);
  xpending = λ stream group db. some 0;
  xlen = λ stream db. some 0;
}

pub remove_by-Memᴰ :
    {A : Type 0} (p : A → Bool) (x : A) (xs : List A)
    → p x ≡ false
    → Memᴰ x xs
    → Memᴰ x (remove_by p xs)
unfolding remove_by
remove_by-Memᴰ p x [] out m = elim m [ ]
remove_by-Memᴰ p x (y ∷ xs) out (Memᴰ.head e) = rw (sym (ap p e) ∙ out, remove_by) (Memᴰ.head e)
remove_by-Memᴰ p x (y ∷ xs) out (Memᴰ.tail m) = elim (Bool-cases (p y)) [
  | inl t ↦ rw (t, remove_by) (remove_by-Memᴰ p x xs out m)
  | inr f ↦ rw (f, remove_by) (Memᴰ.tail (remove_by-Memᴰ p x xs out m))
]

pub is_text-ne : (a b : Text) → a ≢ b → is_text a b ≡ false
unfolding is_text
is_text-ne a b n = ground arith

pub is_entry_apart :
    (stream id st i : Text) (v : Map Text Value)
    → (st ≢ stream) ⊎ (i ≢ id)
    → is_entry stream id (st, i, v) ≡ false
unfolding is_entry
is_entry_apart stream id st i v (inl n) = rw (is_text-ne st stream n, is_entry) refl
is_entry_apart stream id st i v (inr n) = ground (arith, is_text-ne i id n)

is_member-cases : (key : Text) (m n : Member) → (m ≡ n) ⊎ (is_member key m (key, n) ≡ false)
unfolding is_member
is_member-cases key m n = ground arith

abbrev pub contents : Contents server
contents = record {
  Entry = λ db stream id v. Memᴰ (stream, id, v) db.entries;
  Pending = λ db stream group id. Memᴰ (stream, group, id) db.unacked × (id ≢ decimal db.next);
  Has = λ db key m. Memᴰ (key, m) db.members;
  xadd_entry = λ stream n v db room. Memᴰ.head refl;
  xadd_new = λ stream group id n v db p e. p.1 (sym e);
  xack_entry = λ stream group id st i v db m. m;
  xdel_entry = λ stream id st i v db apart m.
      remove_by-Memᴰ (is_entry stream id) (st, i, v) db.entries
        (is_entry_apart stream id st i v apart) m;
  zadd_has = λ key score m db. Memᴰ.head refl;
  xack_has = λ stream group id key m db h. h;
  xdel_has = λ stream id key m db h. h;
}

zrem_keeps :
    (key : Text) (m n : Member) (ms : List (Text × Member))
    → Memᴰ (key, n) ms
    → (m ≡ n) ⊎ Memᴰ (key, n) (remove_by (is_member key m) ms)
zrem_keeps key m n ms h = elim (is_member-cases key m n) [
  | inl e ↦ inl e
  | inr out ↦ inr (remove_by-Memᴰ (is_member key m) (key, n) ms out h)
]

pub additions : Additions server contents
additions = record {
  xadd_unlimited = λ stream v db. Memᴰ.head refl;
  xadd_keeps = λ stream st i v u db m. Memᴰ.tail m;
  xadd_has = λ stream key v m db h. h;
  zrem_entry = λ key st i m v db e. e;
  zrem_has = λ key m n db h. zrem_keeps key m n db.members h;
}
