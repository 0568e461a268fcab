-- ===== src/Tests/DeadLetters.antt =====
-- Replays of dead letters on the server of Letters.antt.
use dota2_analysis.Base.{
  ◌≡◌, ◌≢◌, refl, true, false, [], ◌∷◌, none, arith, length, insert, ℕ_discrete, Map, lookup,
}
use dota2_analysis.Base.Text.{Text, Text-discrete, codes, decimal}
use dota2_analysis.RedisQueue.{Value, str, XMessage, field_payload}
use dota2_analysis.RedisQueue.Client.{cut, executed, is_empty}
use dota2_analysis.Link.{Session}
use dota2_analysis.DeadLetters.{
  Config, replay_message, replay_stream, replay, purge, extract_match_id,
}
use dota2_analysis.DeadLetters.Guard.{match_of, replay_message-replay_message}
use dota2_analysis.DeadLetters.Kept.{IsKept, replay_stream-IsKept}
use dota2_analysis.Tests.Redis.{is_text}
use dota2_analysis.Tests.Letters.{
  Db, redis, contents, guards, find, ids_of, delete_all, is_set, or_empty, put_key, find_new,
}

abbrev cfg : Config
cfg = record {
  fetch_stream = codes "fetch";
  fetch_dlq = codes "fetch:dead";
  parse_stream = codes "parse";
  parse_dlq = codes "parse:dead";
  max_len = 100;
}

abbrev letter : Map Text Value
letter = (field_payload, str (codes "{}")) ∷ []

abbrev one_letter : Db
one_letter = record { entries = (codes "fetch:dead", codes "5", letter) ∷ []; keys = [] }

-- The script is carried out, but its answer is lost.
abbrev broken : Session Db
broken = record { db = one_letter; fates = executed ∷ executed ∷ cut 1 ∷ [] }

one_letter_apart : codes "fetch" ≢ codes "fetch:dead"
one_letter_apart e = absurd (ground arith)

one_letter_room :
    contents.Room one_letter
      (codes "fetch")
      100
      (length (redis.xrevrange (codes "fetch:dead") 10 one_letter))
unfolding ids_of is_text Text-discrete ℕ_discrete
one_letter_room = omega arith

replay_stream-IsKept_example :
    IsKept redis cfg 10 false contents
      (codes "fetch")
      (codes "fetch:dead")
      (codes "5")
      letter
      (replay_stream redis cfg 10 false (codes "fetch") (codes "fetch:dead") broken).1.db
replay_stream-IsKept_example =
    replay_stream-IsKept redis cfg 10 false contents (codes "fetch") (codes "fetch:dead")
      (codes "5") letter broken one_letter_apart
      (find_new (codes "fetch:dead") (codes "5") letter []) one_letter_room

abbrev message : XMessage
message = record { id = codes "5"; values = letter }

abbrev connected : Session Db
connected = record { db = one_letter; fates = [] }

has_match :
    is_empty (match_of redis cfg 10 false guards (codes "fetch") (codes "fetch:dead") message)
    ≡ false
unfolding is_empty extract_match_id Text-discrete lookup ℕ_discrete decimal
has_match = refl

replay_message-replay_message_example :
    replay_message redis cfg 10 false
      (codes "fetch")
      (codes "fetch:dead")
      message
      (replay_message redis cfg 10 false (codes "fetch") (codes "fetch:dead") message connected)
    ≡ replay_message redis cfg 10 false (codes "fetch") (codes "fetch:dead") message connected
replay_message-replay_message_example =
    replay_message-replay_message redis cfg 10 false guards (codes "fetch") (codes "fetch:dead")
      message message connected has_match refl refl

replayed :
    (replay redis cfg 10 false (codes "fetch:dead" ∷ []) connected).1.db.keys
    ≡ codes "dota2:dlq:guard:fetch:7" ∷ []
unfolding replay lookup insert Text-discrete ℕ_discrete ids_of or_empty find decimal put_key is_set
replayed = refl

kept_on_dry_run : (replay redis cfg 10 true (codes "fetch:dead" ∷ []) connected) ≡ (none, connected)
unfolding replay lookup insert Text-discrete ℕ_discrete
kept_on_dry_run = refl

purged : (purge redis cfg 10 false (codes "fetch:dead" ∷ []) connected).1.db.entries ≡ []
unfolding purge ids_of Text-discrete ℕ_discrete delete_all
purged = refl
