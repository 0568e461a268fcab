-- ===== src/DeadLetters/Kept.antt =====
-- What a replay of dead letters leaves where, whatever the connections do.
use mathlib.Core.List.{Memᴰ}
use dota2_analysis.Base.{
  ℕ, zero, suc, ◌≡◌, ◌≢◌, refl, sym, subst, Bool, true, false, ◌⊎◌, inl, inr, List, [], ◌∷◌, Option,
  none, some, Bool-cases, Map, lookup, length,
}
use dota2_analysis.Base.Text.{Text, Text-discrete}
use dota2_analysis.RedisQueue.{Value, XMessage, field_payload}
use dota2_analysis.RedisQueue.Client.{Fate, executed, cut, is_empty}
use dota2_analysis.Link.{Session, call_on, call, called}
use dota2_analysis.DeadLetters.{
  Store, Config, label_of, guard_key, guard_ttl, replay_values, extract_match_id, replay_script,
  after_run, on_guard, replay_guarded, replay_message, replay_messages, on_letters, replay_stream,
}

-- What holds of a database of Redis: an entry of a stream, and that a number of entries can be added
-- to a stream before its limit trims it. A read lists the entries that are there; XADD makes an
-- entry, and while there is room it keeps the others; XDEL leaves other entries alone, and SETNX and
-- DEL of a key leave all of them alone.
pub record Contents (s : Store) : Type 1 where
  pub Entry : s.Db → (stream id : Text) → Map Text Value → Type 0
  pub Room : s.Db → (stream : Text) (max_len free : ℕ) → Type 0
  pub listed :
      (stream id : Text) (count : ℕ) (v : Map Text Value) (m : XMessage) (db : s.Db)
      → Entry db stream id v
      → Memᴰ m (s.xrevrange stream count db)
      → m.id ≡ id
      → m.values ≡ v
  pub xadd_entry :
      (stream : Text) (n free : ℕ) (v : Map Text Value) (db : s.Db)
      → Room db stream n (suc free)
      → Entry (s.xadd stream n v db).1 stream (s.xadd stream n v db).0 v
  pub xadd_keeps :
      (stream st i : Text) (n free : ℕ) (v u : Map Text Value) (db : s.Db)
      → Room db stream n (suc free)
      → Entry db st i v
      → Entry (s.xadd stream n u db).1 st i v
  pub xadd_room :
      (stream : Text) (n free : ℕ) (u : Map Text Value) (db : s.Db)
      → Room db stream n (suc free)
      → Room (s.xadd stream n u db).1 stream n free
  pub xdel_entry :
      (stream id st i : Text) (v : Map Text Value) (db : s.Db)
      → (st ≢ stream) ⊎ (i ≢ id)
      → Entry db st i v
      → Entry (s.xdel stream (id ∷ []) db).1 st i v
  pub xdel_room :
      (stream id st : Text) (n free : ℕ) (db : s.Db)
      → Room db st n free
      → Room (s.xdel stream (id ∷ []) db).1 st n free
  pub room_less : (st : Text) (n free : ℕ) (db : s.Db) → Room db st n (suc free) → Room db st n free
  pub setnx_entry :
      (key st i : Text) (ttl : ℕ) (v : Map Text Value) (db : s.Db)
      → Entry db st i v
      → Entry (s.setnx key ttl db).1 st i v
  pub setnx_room :
      (key st : Text) (ttl n free : ℕ) (db : s.Db)
      → Room db st n free
      → Room (s.setnx key ttl db).1 st n free
  pub del_entry :
      (key st i : Text) (v : Map Text Value) (db : s.Db)
      → Entry db st i v
      → Entry (s.del key db) st i v
  pub del_room :
      (key st : Text) (n free : ℕ) (db : s.Db) → Room db st n free → Room (s.del key db) st n free

module _ (s : Store) where
  pub on_guard_keeps {ℓ} :
      (P Q : s.Db → Type ℓ) (reply : Option Bool × Session s.Db)
      (proceed : Session s.Db → Session s.Db)
      → P reply.1.db
      → ((db : s.Db) → P db → Q db)
      → ((st : Session s.Db) → P st.db → Q (proceed st).db)
      → Q (on_guard s reply proceed).db
  unfolding on_guard
  on_guard_keeps P Q (some true, st) proceed p weaken step = step st p
  on_guard_keeps P Q (some false, st) proceed p weaken step = weaken st.db p
  on_guard_keeps P Q (none, st) proceed p weaken step = weaken st.db p

module _ (s : Store) (cfg : Config) (limit : ℕ) (dry_run : Bool) (w : Contents s)
    (target dlq id : Text) (v : Map Text Value) where
  open w use {Entry, Room}

  -- A dead letter is where it was, or in its stream with the count 0.
  abbrev pub IsKept : s.Db → Type 0
  IsKept db = Entry db dlq id v ⊎ ((i : Text) × Entry db target i (replay_values v))

  abbrev Good : ℕ → s.Db → Type 0
  Good free db = IsKept db × Room db target cfg.max_len free

  Good-less : (free : ℕ) (db : s.Db) → Good (suc free) db → Good free db
  Good-less free db (kept, room) = (kept, w.room_less target cfg.max_len free db room)

  setnx-Good :
      (free : ℕ) (key : Text) (db : s.Db) → Good free db → Good free (s.setnx key guard_ttl db).1
  setnx-Good free key db (inl e, room) = (
    inl (w.setnx_entry key dlq id guard_ttl v db e),
    w.setnx_room key target guard_ttl cfg.max_len free db room,
  )
  setnx-Good free key db (inr (i, e), room) = (
    inr (i, w.setnx_entry key target i guard_ttl (replay_values v) db e),
    w.setnx_room key target guard_ttl cfg.max_len free db room,
  )

  del-Good : (free : ℕ) (key : Text) (db : s.Db) → Good free db → Good free (s.del key db)
  del-Good free key db (inl e, room) =
      (inl (w.del_entry key dlq id v db e), w.del_room key target cfg.max_len free db room)
  del-Good free key db (inr (i, e), room) = (
    inr (i, w.del_entry key target i (replay_values v) db e),
    w.del_room key target cfg.max_len free db room,
  )

  replay_script-Good :
      (free : ℕ) (m : XMessage) (db : s.Db)
      → target ≢ dlq
      → (m.id ≡ id → m.values ≡ v)
      → Good (suc free) db
      → Good free (replay_script s target dlq cfg.max_len m.id (replay_values m.values) db).1
  unfolding replay_script
  replay_script-Good free m db apart same (kept, room) =
      let added = (s.xadd target cfg.max_len (replay_values m.values) db).1 in
      (
        elim kept [
          | inl e ↦ elim (Text-discrete m.id id) [
            | yes here ↦ inr (
              (s.xadd target cfg.max_len (replay_values m.values) db).0,
              subst
                  (λ u.
                    Entry (s.xdel dlq (m.id ∷ []) added).1 target
                      (s.xadd target cfg.max_len (replay_values m.values) db).0 (replay_values u))
                  (same here)
                  (w.xdel_entry dlq m.id target _ _ added (inl apart)
                    (w.xadd_entry target cfg.max_len free _ db room)),
            )
            | no away ↦ inl (
                w.xdel_entry dlq m.id dlq id v added (inr (λ e'. away (sym e')))
                  (w.xadd_keeps target dlq id cfg.max_len free v _ db room e))
          ]
          | inr (i, e) ↦ inr (
            i,
            w.xdel_entry dlq m.id target i _ added (inl apart)
                (w.xadd_keeps target target i cfg.max_len free _ _ db room e),
          )
        ],
        w.xdel_room dlq m.id target cfg.max_len free added
            (w.xadd_room target cfg.max_len free _ db room),
      )

  after_run-Good :
      (free : ℕ) (key match_id : Text) (r : Option ℕ × Session s.Db)
      → Good free r.1.db
      → Good free (after_run s key match_id r).db
  unfolding after_run
  after_run-Good free key match_id (some n, st) g = g
  after_run-Good free key match_id (none, st) g = elim (Bool-cases (is_empty match_id)) [
    | inl e ↦ rw (e, after_run) g
    | inr e ↦ rw (e, after_run) (called _ st (Good free) g (del-Good free key st.db g))
  ]

  replay_guarded-Good :
      (free : ℕ) (key match_id : Text) (m : XMessage) (st : Session s.Db)
      → target ≢ dlq
      → (m.id ≡ id → m.values ≡ v)
      → Good (suc free) st.db
      → Good free (replay_guarded s cfg limit dry_run key match_id target dlq m st).db
  unfolding replay_guarded
  replay_guarded-Good free key match_id m st apart same g = after_run-Good free key match_id _ (
      called _ st (Good free) (Good-less free st.db g)
        (replay_script-Good free m st.db apart same g))

  replay_message-Good :
      (free : ℕ) (m : XMessage) (st : Session s.Db)
      → target ≢ dlq
      → (m.id ≡ id → m.values ≡ v)
      → Good (suc free) st.db
      → Good free (replay_message s cfg limit dry_run target dlq m st).db
  unfolding replay_message
  replay_message-Good free m st apart same g =
      let match_id = extract_match_id s (lookup Text-discrete field_payload m.values) in
      let key = guard_key (label_of cfg target) match_id in
      let next = replay_guarded-Good free key match_id m in
      elim (Bool-cases (is_empty match_id)) [
        | inl e ↦ rw (e, replay_message) (next st apart same g)
        | inr e ↦
            rw (e, replay_message)
              (on_guard_keeps s (Good (suc free)) (Good free) _
                (replay_guarded s cfg limit dry_run key match_id target dlq m)
                (called _ st (Good (suc free)) g (setnx-Good (suc free) key st.db g))
                (Good-less free) (λ st' g'. next st' apart same g'))
      ]

  replay_messages-IsKept :
      (ms : List XMessage) (st : Session s.Db)
      → target ≢ dlq
      → ((m : XMessage) → Memᴰ m ms → m.id ≡ id → m.values ≡ v)
      → Good (length ms) st.db
      → IsKept (replay_messages s cfg limit dry_run target dlq ms st).db
  unfolding replay_messages
  replay_messages-IsKept [] st apart same g = g.0
  replay_messages-IsKept (m ∷ ms) st apart same g =
      replay_messages-IsKept ms (replay_message s cfg limit dry_run target dlq m st) apart
        (λ x mem. same x (Memᴰ.tail mem))
        (replay_message-Good (length ms) m st apart (same m (Memᴰ.head refl)) g)

  on_letters-IsKept :
      (ms : List XMessage) (st : Session s.Db)
      → target ≢ dlq
      → ((m : XMessage) → Memᴰ m ms → m.id ≡ id → m.values ≡ v)
      → w.Entry st.db dlq id v
      → w.Room st.db target cfg.max_len (length ms)
      → IsKept (on_letters s cfg limit dry_run target dlq (some ms, st)).1.db
  unfolding on_letters
  on_letters-IsKept ms st apart same e room = elim (Bool-cases dry_run) [
    | inl t ↦ rw (t, on_letters) (inl e)
    | inr f ↦ rw (f, on_letters) (replay_messages-IsKept ms st apart same (inl e, room))
  ]

  unchanged :
      (db : s.Db)
      → w.Entry db dlq id v
      → (m : XMessage) → Memᴰ m (s.xrevrange dlq limit db)
      → m.id ≡ id
      → m.values ≡ v
  unchanged db e m mem here = w.listed dlq id limit v m db e mem here

  read_on :
      (fates : List Fate) (st : Session s.Db)
      → target ≢ dlq
      → w.Entry st.db dlq id v
      → w.Room st.db target cfg.max_len (length (s.xrevrange dlq limit st.db))
      → IsKept
          (on_letters s cfg limit dry_run target dlq
            (call_on fates (λ db. (s.xrevrange dlq limit db, db)) st)).1.db
  unfolding call_on on_letters
  read_on [] st apart e room =
      on_letters-IsKept (s.xrevrange dlq limit st.db) (record st { db = st.db }) apart
        (unchanged st.db e) e room
  read_on (executed ∷ fates) st apart e room =
      on_letters-IsKept (s.xrevrange dlq limit st.db) (record st { db = st.db; fates = fates })
        apart (unchanged st.db e) e room
  read_on (cut zero ∷ fates) st apart e room = inl e
  read_on (cut (suc n) ∷ fates) st apart e room = inl e

  -- Let the stream of the dead letters differ from the one they go back to, and let that one have
  -- room for the dead letters that are read. Then however far the commands get on their connections,
  -- a dead letter that was there before the replay is still there, or is in its stream with its
  -- payload, the headers that trace it, and the retry count 0.
  pub replay_stream-IsKept :
      (st : Session s.Db)
      → target ≢ dlq
      → w.Entry st.db dlq id v
      → w.Room st.db target cfg.max_len (length (s.xrevrange dlq limit st.db))
      → IsKept (replay_stream s cfg limit dry_run target dlq st).1.db
  unfolding replay_stream call
  replay_stream-IsKept st apart e room = read_on st.fates st apart e room
