-- ===== src/DeadLetters/Guard.antt =====
-- The guards of a replay: a match is not replayed twice while its guard lasts.
use dota2_analysis.Base.{ℕ, ◌≡◌, refl, ap, ◌∙◌, Bool, true, false, List, [], ◌∷◌, some, Map, lookup}
use dota2_analysis.Base.Text.{Text, Text-discrete}
use dota2_analysis.RedisQueue.{Value, XMessage, field_payload}
use dota2_analysis.RedisQueue.Client.{is_empty}
use dota2_analysis.Link.{Session, call_on, call}
use dota2_analysis.DeadLetters.{
  Store, Config, label_of, guard_key, guard_ttl, replay_values, extract_match_id, replay_script,
  after_run, on_guard, replay_guarded, replay_message,
}

-- What holds of the keys of a Redis: SETNX sets a key, or answers false and changes nothing where it
-- is set; XADD and XDEL leave it alone.
pub record Guards (s : Store) : Type 1 where
  pub HasKey : s.Db → Text → Type 0
  pub setnx_sets : (key : Text) (ttl : ℕ) (db : s.Db) → HasKey (s.setnx key ttl db).1 key
  pub setnx_again :
      (key : Text) (ttl : ℕ) (db : s.Db) → HasKey db key → s.setnx key ttl db ≡ (false, db)
  pub xadd_key :
      (key stream : Text) (n : ℕ) (u : Map Text Value) (db : s.Db)
      → HasKey db key
      → HasKey (s.xadd stream n u db).1 key
  pub xdel_key :
      (key stream : Text) (ids : List Text) (db : s.Db)
      → HasKey db key
      → HasKey (s.xdel stream ids db).1 key

module _ (s : Store) (cfg : Config) (limit : ℕ) (dry_run : Bool) (w : Guards s)
    (target dlq : Text) where
  abbrev pub match_of : XMessage → Text
  match_of m = extract_match_id s (lookup Text-discrete field_payload m.values)

  abbrev Marked : Text → Session s.Db → Type 0
  Marked key st = (st.fates ≡ []) × w.HasKey st.db key

  replay_guarded-Marked :
      (key match_id : Text) (m : XMessage) (st : Session s.Db)
      → Marked key st
      → Marked key (replay_guarded s cfg limit dry_run key match_id target dlq m st)
  unfolding replay_guarded call call_on after_run replay_script
  replay_guarded-Marked key match_id m st (holds, key_set) =
      rw (holds, call_on)
        (
          refl,
          w.xdel_key key dlq (m.id ∷ []) _
              (w.xadd_key key target cfg.max_len (replay_values m.values) st.db key_set),
        )

  on_guard-Marked :
      (key match_id : Text) (m : XMessage) (b : Bool) (st : Session s.Db)
      → Marked key st
      → Marked key
          (on_guard s (some b, st) (replay_guarded s cfg limit dry_run key match_id target dlq m))
  unfolding on_guard
  on_guard-Marked key match_id m true st marked = replay_guarded-Marked key match_id m st marked
  on_guard-Marked key match_id m false st marked = marked

  replay_message-Marked :
      (m : XMessage) (st : Session s.Db)
      → is_empty (match_of m) ≡ false
      → st.fates ≡ []
      → Marked
          (guard_key (label_of cfg target) (match_of m))
          (replay_message s cfg limit dry_run target dlq m st)
  unfolding replay_message call call_on
  replay_message-Marked m st has_id holds =
      let key = guard_key (label_of cfg target) (match_of m) in
      rw (has_id, replay_message)
        (rw (holds, call_on)
          (on_guard-Marked key (match_of m) m (s.setnx key guard_ttl st.db).0
            (record { db = (s.setnx key guard_ttl st.db).1; fates = [] })
            (refl, w.setnx_sets key guard_ttl st.db)))

  skip_message :
      (m : XMessage) (st : Session s.Db)
      → is_empty (match_of m) ≡ false
      → Marked (guard_key (label_of cfg target) (match_of m)) st
      → replay_message s cfg limit dry_run target dlq m st ≡ st
  unfolding replay_message call call_on on_guard
  skip_message m st has_id (holds, key_set) =
      rw (has_id, replay_message)
        (rw (holds, call_on)
          (rw (w.setnx_again (guard_key (label_of cfg target) (match_of m)) guard_ttl st.db key_set)
            refl))

  -- With connections that hold, a dead letter with the match of one that has just been replayed to the
  -- same stream, or passed over, is passed over: nothing changes.
  pub replay_message-replay_message :
      (m m' : XMessage) (st : Session s.Db)
      → is_empty (match_of m) ≡ false
      → match_of m' ≡ match_of m
      → st.fates ≡ []
      → replay_message s cfg limit dry_run target dlq m'
          (replay_message s cfg limit dry_run target dlq m st)
        ≡ replay_message s cfg limit dry_run target dlq m st
  replay_message-replay_message m m' st has_id same holds =
      skip_message m' _ (ap is_empty same ∙ has_id)
        (rw same (replay_message-Marked m st has_id holds))
