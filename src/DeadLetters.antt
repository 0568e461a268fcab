-- ===== src/DeadLetters.antt =====
-- go-ingestion/internal/dlq/commands.go: `Replay` copies dead letters back to their streams, `Purge`
-- deletes them; both are clients of a Redis server over connections that may fail.

pub mod Guard
pub mod Kept
use dota2_analysis.Base.{
  ℕ, zero, suc, ◌+◌, ◌*◌, Bool, true, false, List, [], ◌∷◌, ◌++◌, Option, none, some, map, Map,
  lookup, insert, if◌then◌else◌,
}
use dota2_analysis.Base.Numbers.{itoa}
use dota2_analysis.Base.Text.{Text, Text-discrete, codes}
use dota2_analysis.Discovery.{Scalar, RawMessage, null, text, integer, other, scalar, array}
use dota2_analysis.RedisQueue as RedisQueue
use dota2_analysis.RedisQueue.{Value, str, bytes, XMessage, field_payload, field_retry, header_key}
use dota2_analysis.Link.{Session, call}
use dota2_analysis.RedisQueue.Client.{is_empty}

-- The commands of Redis that are sent, and the decoder of a JSON object, which fails for other JSON.
-- SETNX answers whether it has set the key, XDEL how many entries it has deleted.
pub record Store : Type 1 where
  pub Db : Type 0
  pub object : Text → Option (Map Text RawMessage)
  pub xrevrange : (stream : Text) (count : ℕ) → Db → List XMessage
  pub setnx : (key : Text) (ttl : ℕ) → Db → Bool × Db
  pub del : (key : Text) → Db → Db
  pub xadd : (stream : Text) (max_len : ℕ) → Map Text Value → Db → Text × Db
  pub xdel : (stream : Text) (ids : List Text) → Db → ℕ × Db

pub record Config : Type 0 where
  pub fetch_stream : Text
  pub fetch_dlq : Text
  pub parse_stream : Text
  pub parse_dlq : Text
  pub max_len : ℕ

pub data DlqError : Type 0 where
  xrevrange_failed xdel_failed : Text → DlqError

unfoldable pub or_nothing : Option Text → Text
or_nothing none = []
or_nothing (some t) = t

-- The stream of a dead letter stream; of two equal keys of the map the later one counts.
unfoldable pub target_of : Config → Text → Text
unfolding or_nothing
target_of cfg dlq = or_nothing (
    lookup Text-discrete dlq (
      insert Text-discrete cfg.parse_dlq cfg.parse_stream
        (insert Text-discrete cfg.fetch_dlq cfg.fetch_stream [])))

unfoldable pub is_same : Text → Text → Bool
is_same a b = elim (Text-discrete a b) [ yes _ ↦ true | no _ ↦ false ]

unfoldable pub label_of : Config → Text → Text
unfolding is_same
label_of cfg target =
    if is_same target cfg.fetch_stream
    then codes "fetch"
    else if is_same target cfg.parse_stream
    then codes "parse"
    else codes "unknown"

unfoldable pub guard_key : (label match_id : Text) → Text
guard_key label match_id = codes "dota2:dlq:guard:" ++ label ++ (58 ∷ match_id)

-- Seven days, in nanoseconds.
abbrev pub guard_ttl : ℕ
guard_ttl = 604800000000000

-- A JSON null decodes as the number 0.
unfoldable pub id_text : Option RawMessage → Text
unfolding itoa
id_text (some (scalar (integer z))) = itoa z
id_text (some (scalar (text s))) = s
id_text (some (scalar null)) = codes "0"
id_text _ = []

unfoldable pub value_text : Option Value → Option Text
value_text (some (str s)) = some s
value_text (some (bytes s)) = some s
value_text _ = none

unfoldable pub add_field : Text → Option Value → Map Text Value → Map Text Value
add_field key none vals = vals
add_field key (some v) vals = insert Text-discrete key v vals

-- A payload that is missing is sent as an empty string.
unfoldable pub sent_value : Option Value → Value
sent_value none = str []
sent_value (some v) = v

unfoldable pub replay_values : Map Text Value → Map Text Value
unfolding add_field sent_value
replay_values values =
    let parent = header_key (codes "traceparent") in
    let state = header_key (codes "tracestate") in
    add_field state (lookup Text-discrete state values) (
      add_field parent (lookup Text-discrete parent values) (
        insert Text-discrete field_retry (str (codes "0")) (
          insert Text-discrete field_payload
            (sent_value (lookup Text-discrete field_payload values)) [])))

module _ (s : Store) where
  -- `extractMatchID`
  unfoldable pub object_id : Option (Map Text RawMessage) → Text
  unfolding id_text
  object_id none = []
  object_id (some raw) = id_text (lookup Text-discrete (codes "match_id") raw)

  unfoldable pub payload_id : Option Text → Text
  unfolding object_id
  payload_id none = []
  payload_id (some p) = object_id (s.object p)

  unfoldable pub extract_match_id : Option Value → Text
  unfolding value_text payload_id
  extract_match_id payload = payload_id (value_text payload)

  -- `luaReplayAtomic`
  unfoldable pub replay_script :
      (target dlq : Text) (max_len : ℕ) (id : Text) (values : Map Text Value) → s.Db → ℕ × s.Db
  replay_script target dlq max_len id values db =
      s.xdel dlq (id ∷ []) (s.xadd target max_len values db).1

  -- After an error the guard is taken back.
  unfoldable pub after_run : (key match_id : Text) → Option ℕ × Session s.Db → Session s.Db
  unfolding is_empty call
  after_run key match_id (some deleted, st) = st
  after_run key match_id (none, st) =
      if is_empty match_id then st else (call (λ db. (tt, s.del key db)) st).1

  -- An error of SETNX reads as a key that is there.
  unfoldable pub on_guard :
      Option Bool × Session s.Db → (Session s.Db → Session s.Db) → Session s.Db
  on_guard (some true, st) proceed = proceed st
  on_guard (some false, st) proceed = st
  on_guard (none, st) proceed = st

module _ (s : Store) (cfg : Config) (limit : ℕ) (dry_run : Bool) where
  unfoldable pub replay_guarded :
      (key match_id target dlq : Text) → XMessage → Session s.Db → Session s.Db
  unfolding call after_run replay_script
  replay_guarded key match_id target dlq m st =
      after_run s key match_id
        (call (replay_script s target dlq cfg.max_len m.id (replay_values m.values)) st)

  -- One turn of the loop over the messages of a stream; what it counts is only logged.
  unfoldable pub replay_message : (target dlq : Text) → XMessage → Session s.Db → Session s.Db
  unfolding extract_match_id guard_key label_of is_empty on_guard call replay_guarded
  replay_message target dlq m st =
      let match_id = extract_match_id s (lookup Text-discrete field_payload m.values) in
      let key = guard_key (label_of cfg target) match_id in
      let proceed = replay_guarded key match_id target dlq m in
      if is_empty match_id then proceed st else on_guard s (call (s.setnx key guard_ttl) st) proceed

  unfoldable pub replay_messages : (target dlq : Text) → List XMessage → Session s.Db → Session s.Db
  unfolding replay_message
  replay_messages target dlq [] st = st
  replay_messages target dlq (m ∷ ms) st =
      replay_messages target dlq ms (replay_message target dlq m st)

  unfoldable pub on_letters :
      (target dlq : Text) → Option (List XMessage) × Session s.Db → Option DlqError × Session s.Db
  unfolding replay_messages
  on_letters target dlq (none, st) = (some (xrevrange_failed dlq), st)
  on_letters target dlq (some ms, st) =
      (none, (if dry_run then st else replay_messages target dlq ms st))

  unfoldable pub replay_stream : (target dlq : Text) → Session s.Db → Option DlqError × Session s.Db
  unfolding call on_letters
  replay_stream target dlq st =
      on_letters target dlq (call (λ db. (s.xrevrange dlq limit db, db)) st)

  unfoldable pub next_stream :
      Option DlqError × Session s.Db
      → (Session s.Db → Option DlqError × Session s.Db)
      → Option DlqError × Session s.Db
  next_stream (none, st) next = next st
  next_stream (some e, st) next = (some e, st)

  -- `Replay`; a stream that is no stream of dead letters is passed over.
  unfoldable pub replay : List Text → Session s.Db → Option DlqError × Session s.Db
  unfolding target_of is_empty replay_stream next_stream
  replay [] st = (none, st)
  replay (dlq ∷ dlqs) st =
      let rest = replay dlqs in
      let target = target_of cfg dlq in
      if is_empty target then rest st else next_stream (replay_stream target dlq st) rest

  unfoldable pub deleted_answer : Text → Option ℕ × Session s.Db → Option DlqError × Session s.Db
  deleted_answer dlq (none, st) = (some (xdel_failed dlq), st)
  deleted_answer dlq (some n, st) = (none, st)

  unfoldable pub purge_letters :
      Text → Option (List XMessage) × Session s.Db → Option DlqError × Session s.Db
  unfolding call deleted_answer
  purge_letters dlq (none, st) = (some (xrevrange_failed dlq), st)
  purge_letters dlq (some [], st) = (none, st)
  purge_letters dlq (some (m ∷ ms), st) =
      if dry_run
      then (none, st)
      else deleted_answer dlq (call (s.xdel dlq (map (λ x. x.id) (m ∷ ms))) st)

  -- `Purge`
  unfoldable pub purge : List Text → Session s.Db → Option DlqError × Session s.Db
  unfolding call purge_letters next_stream
  purge [] st = (none, st)
  purge (dlq ∷ dlqs) st =
      next_stream (purge_letters dlq (call (λ db. (s.xrevrange dlq limit db, db)) st)) (purge dlqs)
