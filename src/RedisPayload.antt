-- ===== src/RedisPayload.antt =====
-- go-ingestion/internal/payload/redisstore/store.go: raw match data by key, in Redis.
pub mod Lasts
use dota2_analysis.Base.{
  ℕ, Bool, not, ◌⊎◌, inl, inr, Option, none, some, List, ◌∷◌, ◌++◌, ◌==◌, if◌then◌else◌,
}
use dota2_analysis.Base.Text.{Text}
use dota2_analysis.Link.{Session, call}
use dota2_analysis.RedisQueue.Client.{is_empty}

-- The commands that are sent at a time; a SET without a time to live, here 0, lasts for ever.
pub record Server : Type 1 where
  pub Db : Type 0
  pub set : (now : ℕ) (key blob : Text) (ttl : ℕ) → Db → Db
  pub get : (now : ℕ) (key : Text) → Db → Option Text
  pub del : (key : Text) → Db → Db
  pub expire : (now : ℕ) (key : Text) (ttl : ℕ) → Db → Db

-- `default_ttl` is not negative.
pub record Config : Type 0 where
  pub key_prefix : Text
  pub default_ttl : ℕ

pub data StoreError : Type 0 where
  nil_client prefix_required not_found command_failed : StoreError

unfoldable pub new : (has_client : Bool) → Config → StoreError ⊎ Config
unfolding is_empty
new has_client cfg =
    if not has_client
    then inl nil_client
    else if is_empty cfg.key_prefix
    then inl prefix_required
    else inr cfg

-- `keys.blob`
unfoldable pub blob_key : (prefix key : Text) → Text
blob_key prefix key = prefix ++ (58 ∷ key)

unfoldable pub or_default_ttl : Config → ℕ → ℕ
or_default_ttl cfg ttl = if ttl == 0 then cfg.default_ttl else ttl

module _ (s : Server) where
  unfoldable pub on_done : Option (Unit {0}) × Session s.Db → Option StoreError × Session s.Db
  on_done (none, st) = (some command_failed, st)
  on_done (some u, st) = (none, st)

  unfoldable pub on_found : Option (Option Text) × Session s.Db → (StoreError ⊎ Text) × Session s.Db
  on_found (none, st) = (inl command_failed, st)
  on_found (some none, st) = (inl not_found, st)
  on_found (some (some blob), st) = (inr blob, st)

module _ (s : Server) (cfg : Config) where
  unfoldable pub put :
      (now : ℕ) (key blob : Text) (ttl : ℕ) → Session s.Db → Option StoreError × Session s.Db
  unfolding call on_done blob_key or_default_ttl
  put now key blob ttl st = on_done s (
      call (λ db. (tt, s.set now (blob_key cfg.key_prefix key) blob (or_default_ttl cfg ttl) db))
        st)

  unfoldable pub get : (now : ℕ) (key : Text) → Session s.Db → (StoreError ⊎ Text) × Session s.Db
  unfolding call on_found blob_key
  get now key st = on_found s (call (λ db. (s.get now (blob_key cfg.key_prefix key) db, db)) st)

  unfoldable pub remove : Text → Session s.Db → Option StoreError × Session s.Db
  unfolding call on_done blob_key
  remove key st = on_done s (call (λ db. (tt, s.del (blob_key cfg.key_prefix key) db)) st)

  -- The answer of EXPIRE, whether there is the key, is dropped.
  unfoldable pub extend_ttl :
      (now : ℕ) (key : Text) (ttl : ℕ) → Session s.Db → Option StoreError × Session s.Db
  unfolding call on_done blob_key or_default_ttl
  extend_ttl now key ttl st =
      on_done s (
        call (λ db. (tt, s.expire now (blob_key cfg.key_prefix key) (or_default_ttl cfg ttl) db))
          st)
