-- ===== src/Tests/RedisQueue.antt =====
-- The Redis Streams queue on the small server of Redis.antt.
use mathlib.Core.List.{Memᴰ}
use dota2_analysis.Base.{
  ◌≡◌, ◌≢◌, refl, true, inl, inr, List, [], ◌∷◌, none, some, arith, lookup, pos, negsuc,
}
use dota2_analysis.Base.Text.{Text, Text-discrete, codes, decimal}
use dota2_analysis.Queue.{failed}
use dota2_analysis.RedisQueue.{Config, Task, task_values, publish_values, decode_message, envelope}
use dota2_analysis.Base.Numbers.{itoa, atoi}
use dota2_analysis.RedisQueue.Client.{Fate, cut, State, process_one, is_empty}
use dota2_analysis.RedisQueue.Client.Subscriber.{mature_async_retries}
use dota2_analysis.RedisQueue.Encoding.{decode_message-task_values}
use dota2_analysis.RedisQueue.Loss.{Kept, process_one-Kept}
use dota2_analysis.RedisQueue.Promotion.{
  IsThere, InStream, mature_async_retries-IsThere, mature_async_retries-InStream,
}
use dota2_analysis.Tests.Redis.{server, contents, additions, all_members}

abbrev job : Task
job = record {
  message = record {
    id = codes "x";
    payload = codes "{}";
    headers = (codes "trace", codes "7") ∷ [];
  };
  retry_count = pos 1;
}

abbrev cfg : Config
cfg = record {
  stream = codes "fetch";
  dlq_stream = codes "dead";
  group = codes "g";
  consumer = codes "c";
  max_len = 1000;
  policy = record { max_retries = 3 };
  max_backoff = 0;
  delete_on_ack = true;
  async_cfg = record { zset_key = codes "z"; batch_size = 10; max_retries = 0 };
}

abbrev taken : List Fate → State server
taken fates = record {
  db = record {
    entries = [];
    unacked = (codes "fetch", codes "g", codes "x") ∷ [];
    members = (codes "z", envelope job) ∷ [];
    next = 5;
  };
  fates = fates;
  recover_cursor = codes "0-0";
}

atoi_reads : (atoi (codes "-12") ≡ some (negsuc 11)) × (atoi (codes "+") ≡ none)
unfolding atoi
atoi_reads = (refl, refl)

itoa_prints : itoa (negsuc 11) ≡ codes "-12"
unfolding itoa decimal
itoa_prints = refl

decode_message-task_values_example :
    ((t : Task) × (decode_message (record { id = codes "5"; values = task_values job }) ≡ inr t)
      × (t.id ≡ codes "5")
      × (t.payload ≡ codes "{}")
      × (t.retry_count ≡ pos 1)
      × ((k : Text)
          → lookup Text-discrete k t.headers
            ≡ lookup Text-discrete k ((codes "trace", codes "7") ∷ [])))
    × (publish_values job.message
        ≡ task_values (record { message = job.message; retry_count = pos 0 }))
decode_message-task_values_example = decode_message-task_values job (codes "5") (omega arith)

x-ne-five : codes "x" ≢ decimal 5
unfolding decimal
x-ne-five e = ground arith

dead-ne-fetch : codes "dead" ≢ codes "fetch"
dead-ne-fetch e = ground arith

process_one-Kept_example :
    Kept server cfg
      (λ d. d)
      contents
      job
      (process_one server cfg (λ d. d) (λ m. (failed, codes "no")) job (taken (cut 1 ∷ []))).db
unfolding is_empty
process_one-Kept_example =
    process_one-Kept server cfg (λ d. d) contents (λ m. (failed, codes "no")) job
      (taken (cut 1 ∷ [])) (omega arith) refl refl dead-ne-fetch (Memᴰ.head refl, x-ne-five) refl

mature_async_retries-IsThere_example :
    IsThere server cfg contents additions job
      (mature_async_retries server cfg (taken (cut 1 ∷ []))).db
mature_async_retries-IsThere_example =
    mature_async_retries-IsThere server cfg contents additions job (taken (cut 1 ∷ []))
      (inl (Memᴰ.head refl))

mature_async_retries-InStream_example :
    InStream server cfg contents additions job (mature_async_retries server cfg (taken [])).db
unfolding is_empty all_members
mature_async_retries-InStream_example =
    mature_async_retries-InStream server cfg contents additions job (taken []) (envelope job ∷ [])
      refl refl (Memᴰ.head refl) refl
