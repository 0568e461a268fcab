-- ===== src/Tests/Pipeline.antt =====
-- A match from the fetcher to the database, with the data of Tests/Fetcher and Tests/Parser.
use dota2_analysis.Base.{◌≡◌, refl, inr, [], none, arith, pos}
use dota2_analysis.Base.Numbers.{itoa}
use dota2_analysis.Base.Text.{codes}
use dota2_analysis.Payload as Payload
use dota2_analysis.Queue as Queue
use dota2_analysis.Queue.{Message}
use dota2_analysis.Fetcher.{fetch_one, is_unset, doer_result, marshal_task}
use dota2_analysis.Fetcher.Delivered.{store_at, parse_queue, parse_task}
use dota2_analysis.Decode.Root.{decode_match, on_unmarshalled, check_match, build_match, validate}
use dota2_analysis.Parser.{parse_handler}
use dota2_analysis.Parser.Lost.{payloads_at}
use dota2_analysis.Parser.Stored.{ingester_of}
use dota2_analysis.Parser.Pipeline.{after_fetch, Parsing, parse_handler-fetch_handler}
use dota2_analysis.Tests.Fetcher.{env, cfg, msg, begin}
use dota2_analysis.Tests.Parser.{json, blob, decoded, db}

abbrev task : Message
task = record { id = codes "inmem-1"; payload = marshal_task (pos 5); headers = [] }

-- The parser starts 20 seconds after the fetch, with a database that is empty.
abbrev start : Parsing env 100 cfg json db 120
start = record {
  store = (after_fetch env 100 cfg json db msg begin).1.store;
  world = record { repo = []; dedup = none; failures = []; successes = 0 };
  failures = [];
  successes = 0;
  duplicates = 0;
}

data_fetched : (fetch_one env (store_at 100) parse_queue cfg (pos 5) begin.world).0 ≡ inr blob
unfolding fetch_one is_unset doer_result
data_fetched = refl

task_decodes : json.task (marshal_task (pos 5)) ≡ inr (pos 5)
unfolding marshal_task
task_decodes = refl

data_decodes : decode_match json (pos 5) blob ≡ inr decoded
unfolding decode_match on_unmarshalled check_match
data_decodes = refl

match_valid : validate decoded ≡ none
unfolding validate build_match
match_valid = refl

parse_handler-fetch_handler_example :
    ((after_fetch env 100 cfg json db msg begin).0 ≡ none)
    × ((after_fetch env 100 cfg json db msg begin).1.queue
        ≡ Queue.publish begin.queue (parse_task (pos 5) msg))
    × ((parse_handler json (payloads_at 120) (ingester_of db) task start).0 ≡ none)
    × ((parse_handler json (payloads_at 120) (ingester_of db) task start).1.world.repo
        ≡ (db.ingest_match decoded start.world.repo).1)
    × ((Payload.get 120
          (itoa (pos 5))
          (parse_handler json (payloads_at 120) (ingester_of db) task start).1.store).0
        ≡ none)
parse_handler-fetch_handler_example =
    parse_handler-fetch_handler env 100 cfg json db msg task begin 120 start (pos 5) blob decoded
      refl data_fetched refl task_decodes refl (inr (omega arith)) data_decodes match_valid refl
