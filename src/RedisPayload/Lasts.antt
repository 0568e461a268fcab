-- ===== src/RedisPayload/Lasts.antt =====
-- How long the payload store in Redis keeps what it has stored.
use dota2_analysis.Base.{ℕ, ◌<◌, ◌+◌, ◌≡◌, refl, ◌⊎◌, inr, [], some}
use dota2_analysis.Base.Text.{Text}
use dota2_analysis.Link.{Session, call, call_on}
use dota2_analysis.RedisPayload.{
  Server, Config, blob_key, or_default_ttl, on_done, on_found, put, get,
}

-- SET keeps its value as long as the time to live says.
abbrev pub Keeps : Server → Type 0
Keeps s =
    (now later ttl : ℕ) (key blob : Text) (db : s.Db)
    → (ttl ≡ 0) ⊎ (later < now + ttl)
    → s.get later key (s.set now key blob ttl db) ≡ some blob

-- With connections that hold, what was put is found until its time to live, or the default where it has
-- none, is over; and for ever if both are 0.
pub get-put :
    (s : Server) (keeps : Keeps s) (cfg : Config) (now later ttl : ℕ) (key blob : Text)
    (st : Session s.Db)
    → st.fates ≡ []
    → (or_default_ttl cfg ttl ≡ 0) ⊎ (later < now + or_default_ttl cfg ttl)
    → (get s cfg later key (put s cfg now key blob ttl st).1).0 ≡ inr blob
unfolding get put call call_on on_done on_found
get-put s keeps cfg now later ttl key blob st holds lasts =
    rw (holds, call_on)
      (rw (keeps now later (or_default_ttl cfg ttl) (blob_key cfg.key_prefix key) blob st.db lasts)
        refl)
