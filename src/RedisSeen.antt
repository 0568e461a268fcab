-- ===== src/RedisSeen.antt =====
-- go-ingestion/internal/dedup/redisseen/seen.go: the keys that were seen, in Redis: a Bloom filter, a
-- set, or a key for each that expires.

pub mod Refines
use dota2_analysis.Base.{
  ℕ, zero, suc, Bool, true, false, not, ◌⊎◌, inl, inr, List, [], ◌∷◌, ◌++◌, Option, none, some, ltb,
  ◌==◌, if◌then◌else◌, map, Map, insert,
}
use dota2_analysis.Base.Text.{Text, Text-discrete, codes}
use dota2_analysis.Link.{Session, call}
use dota2_analysis.RedisQueue.Client.{is_empty}

-- How BF.RESERVE answers; the errors are those that the code tells apart by their text.
pub data Reserved : Type 0 where
  reserved already_exists unknown_command refused : Reserved

-- The commands that are sent. `smismember_of` is none where the server does not know the command, and
-- an answer of `bf_mexists` that is no integer is none.
pub record Server : Type 1 where
  pub Db : Type 0
  pub bf_reserve : (key : Text) → Db → Reserved × Db
  pub bf_add : (key member : Text) → Db → ℕ × Db
  pub bf_exists : (key member : Text) → Db → ℕ
  pub bf_mexists : (key : Text) → List Text → Db → List (Option ℕ)
  pub sadd : (key member : Text) → Db → ℕ × Db
  pub sismember : (key member : Text) → Db → Bool
  pub smismember_of : (key : Text) → List Text → Db → Option (List Bool)
  pub setnx : (key : Text) (ttl : ℕ) → Db → Bool × Db
  pub exists : (key : Text) → Db → ℕ

-- `ttl` 0 stands for every value below 1.
pub record Config : Type 0 where
  pub key_prefix : Text
  pub ttl : ℕ
  pub use_bloom : Bool

pub data SeenError : Type 0 where
  nil_client prefix_required no_bloom bloom_failed command_failed : SeenError

unfoldable pub all_key : Text → Text
all_key prefix = prefix ++ codes ":seen"

unfoldable pub seen_key : (prefix id : Text) → Text
seen_key prefix id = prefix ++ (codes ":seen:" ++ id)

unfoldable pub bloom_key : Text → Text
bloom_key prefix = prefix ++ codes ":bloom"

unfoldable pub is_positive : ℕ → Bool
is_positive zero = false
is_positive (suc n) = true

-- `result[keys[i]] = values[i]`, of one value for each key.
unfoldable pub assign : List Text → List Bool → Map Text Bool → Map Text Bool
assign [] bs result = result
assign (k ∷ ks) [] result = result
assign (k ∷ ks) (b ∷ bs) result = assign ks bs (insert Text-discrete k b result)

-- A value that is no integer is left out.
unfoldable pub assign_counts : List Text → List (Option ℕ) → Map Text Bool → Map Text Bool
unfolding is_positive
assign_counts [] ns result = result
assign_counts (k ∷ ks) [] result = result
assign_counts (k ∷ ks) (none ∷ ns) result = assign_counts ks ns result
assign_counts (k ∷ ks) (some n ∷ ns) result =
    assign_counts ks ns (insert Text-discrete k (is_positive n) result)

module _ (s : Server) where
  unfoldable pub on_reserved :
      Config → Option Reserved × Session s.Db → (SeenError ⊎ Config) × Session s.Db
  on_reserved cfg (none, st) = (inl bloom_failed, st)
  on_reserved cfg (some reserved, st) = (inr cfg, st)
  on_reserved cfg (some already_exists, st) = (inr cfg, st)
  on_reserved cfg (some unknown_command, st) = (inl no_bloom, st)
  on_reserved cfg (some refused, st) = (inl bloom_failed, st)

  unfoldable pub new :
      (has_client : Bool) → Config → Session s.Db → (SeenError ⊎ Config) × Session s.Db
  unfolding is_empty call bloom_key on_reserved
  new has_client cfg st =
      if not has_client
      then (inl nil_client, st)
      else if is_empty cfg.key_prefix
      then (inl prefix_required, st)
      else if cfg.use_bloom
      then on_reserved cfg (call (s.bf_reserve (bloom_key cfg.key_prefix)) st)
      else (inr cfg, st)

module _ (s : Server) (cfg : Config) where
  unfoldable pub on_added : Option ℕ × Session s.Db → (SeenError ⊎ Bool) × Session s.Db
  on_added (none, st) = (inl command_failed, st)
  on_added (some n, st) = (inr (n == 0), st)

  unfoldable pub on_set : Option Bool × Session s.Db → (SeenError ⊎ Bool) × Session s.Db
  on_set (none, st) = (inl command_failed, st)
  on_set (some added, st) = (inr (not added), st)

  unfoldable pub on_bool : Option Bool × Session s.Db → (SeenError ⊎ Bool) × Session s.Db
  on_bool (none, st) = (inl command_failed, st)
  on_bool (some b, st) = (inr b, st)

  unfoldable pub on_count : Option ℕ × Session s.Db → (SeenError ⊎ Bool) × Session s.Db
  unfolding is_positive
  on_count (none, st) = (inl command_failed, st)
  on_count (some n, st) = (inr (is_positive n), st)

  unfoldable pub mark_seen : Text → Session s.Db → (SeenError ⊎ Bool) × Session s.Db
  unfolding call on_added on_set bloom_key all_key seen_key
  mark_seen key st =
      if cfg.use_bloom
      then on_added (call (s.bf_add (bloom_key cfg.key_prefix) key) st)
      else if cfg.ttl == 0
      then on_added (call (s.sadd (all_key cfg.key_prefix) key) st)
      else on_set (call (s.setnx (seen_key cfg.key_prefix key) cfg.ttl) st)

  unfoldable pub is_seen : Text → Session s.Db → (SeenError ⊎ Bool) × Session s.Db
  unfolding call on_count on_bool bloom_key all_key seen_key
  is_seen key st =
      if cfg.use_bloom
      then on_count (call (λ db. (s.bf_exists (bloom_key cfg.key_prefix) key db, db)) st)
      else if cfg.ttl == 0
      then on_bool (call (λ db. (s.sismember (all_key cfg.key_prefix) key db, db)) st)
      else on_count (call (λ db. (s.exists (seen_key cfg.key_prefix key) db, db)) st)

  unfoldable pub on_flags :
      List Text → Option (List Bool) × Session s.Db → (SeenError ⊎ Map Text Bool) × Session s.Db
  unfolding assign
  on_flags keys (none, st) = (inl command_failed, st)
  on_flags keys (some bs, st) = (inr (assign keys bs []), st)

  unfoldable pub on_counts :
      List Text
      → Option (List (Option ℕ)) × Session s.Db
      → (SeenError ⊎ Map Text Bool) × Session s.Db
  unfolding assign_counts
  on_counts keys (none, st) = (inl command_failed, st)
  on_counts keys (some ns, st) = (inr (assign_counts keys ns []), st)

  -- One SISMEMBER for each key, in one round trip.
  unfoldable pub ask_each : List Text → Session s.Db → (SeenError ⊎ Map Text Bool) × Session s.Db
  unfolding call on_flags all_key
  ask_each keys st =
      on_flags keys
        (call (λ db. (map (λ k. s.sismember (all_key cfg.key_prefix) k db) keys, db)) st)

  -- Any error of SMISMEMBER leads to the older commands.
  unfoldable pub on_smismember :
      List Text
      → Option (Option (List Bool)) × Session s.Db
      → (SeenError ⊎ Map Text Bool) × Session s.Db
  unfolding ask_each assign
  on_smismember keys (none, st) = ask_each keys st
  on_smismember keys (some none, st) = ask_each keys st
  on_smismember keys (some (some bs), st) = (inr (assign keys bs []), st)

  unfoldable pub smismember : List Text → Session s.Db → (SeenError ⊎ Map Text Bool) × Session s.Db
  unfolding call on_smismember all_key
  smismember keys st =
      on_smismember keys (call (λ db. (s.smismember_of (all_key cfg.key_prefix) keys db, db)) st)

  unfoldable pub check_batch : List Text → Session s.Db → (SeenError ⊎ Map Text Bool) × Session s.Db
  unfolding call on_flags on_counts smismember bloom_key seen_key is_positive
  check_batch keys st =
      if cfg.use_bloom
      then on_counts keys (call (λ db. (s.bf_mexists (bloom_key cfg.key_prefix) keys db, db)) st)
      else if cfg.ttl == 0
      then smismember keys st
      else on_flags keys (
          call (λ db. (map (λ k. is_positive (s.exists (seen_key cfg.key_prefix k) db)) keys, db))
            st)
