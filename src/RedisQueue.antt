-- ===== src/RedisQueue.antt =====
-- go-ingestion/internal/queue/redisstreams/queue.go: the queue over a Redis stream with a consumer
-- group, a sorted set of delayed retries and a stream of dead letters. This file: configuration,
-- messages and their encoding; `Client` has the operations.
pub mod Async
pub mod Client
pub mod Encoding
pub mod Loss
pub mod Promotion
use dota2_analysis.Base.{
  ℕ, zero, suc, ◌+◌, ◌-◌, ◌*◌, Bool, true, false, ◌&&◌, ◌||◌, ◌⊎◌, inl, inr, List, [], ◌∷◌, ◌++◌,
  Option, none, some, ltb, leb, ◌==◌, if◌then◌else◌, Map, lookup, insert, ℤ, pos, negsuc,
}
use dota2_analysis.Base.Text.{Text, Text-discrete, codes, decimal}
use dota2_analysis.Queue.{Message, RetryPolicy}
use dota2_analysis.Base.Numbers.{itoa, atoi}

pub record AsyncRetryConfig : Type 0 where
  pub zset_key : Text
  pub batch_size : ℕ
  pub max_retries : ℕ

-- `max_len` 0 stands for every value below 1.
pub record Config : Type 0 where
  pub stream : Text
  pub dlq_stream : Text
  pub group : Text
  pub consumer : Text
  pub max_len : ℕ
  pub policy : RetryPolicy
  pub max_backoff : ℕ
  pub delete_on_ack : Bool
  pub async_cfg : AsyncRetryConfig

-- A task with its `RetryCount`, a Go int.
pub record Task : Type 0 where
  pub message : Message
  pub open message use *
  pub retry_count : ℤ

-- A value of a stream entry as the client library returns it: a string, bytes, or a value of
-- another Go type, of which the name counts.
pub data Value : Type 0 where
  str bytes other : Text → Value

pub record XMessage : Type 0 where
  pub id : Text
  pub values : Map Text Value

abbrev pub field_payload : Text
field_payload = codes "p"

abbrev pub field_retry : Text
field_retry = codes "r"

abbrev pub field_reason : Text
field_reason = codes "reason"

-- `"h:"+k`
abbrev pub header_key : Text → Text
header_key k = 104 ∷ 58 ∷ k

-- `strings.HasPrefix(k, "h:")` with `strings.TrimPrefix`
unfoldable pub trim_header : Text → Option Text
trim_header [] = none
trim_header (a ∷ []) = none
trim_header (a ∷ b ∷ k) = if a == 104 && b == 58 then some k else none

-- The loop over the headers of a message.
unfoldable pub add_headers : Map Text Text → Map Text Value → Map Text Value
add_headers [] values = values
add_headers ((k, v) ∷ headers) values =
    insert Text-discrete (header_key k) (str v) (add_headers headers values)

-- The fields of an entry: payload, retry count and headers.
unfoldable pub entry_values : Text → Text → Map Text Text → Map Text Value
unfolding add_headers
entry_values payload retry headers = add_headers headers (
    insert Text-discrete field_retry (str retry)
      (insert Text-discrete field_payload (str payload) []))

unfoldable pub publish_values : Message → Map Text Value
unfolding entry_values
publish_values msg = entry_values msg.payload (codes "0") msg.headers

unfoldable pub task_values : Task → Map Text Value
unfolding entry_values itoa
task_values t = entry_values t.payload (itoa t.retry_count) t.headers

-- The fields of a dead letter, which has the reason too.
unfoldable pub dlq_values : Task → Text → Map Text Value
unfolding add_headers itoa
dlq_values t reason = add_headers t.headers (
    insert Text-discrete field_reason (str reason) (
      insert Text-discrete field_retry (str (itoa t.retry_count))
        (insert Text-discrete field_payload (str t.payload) [])))

pub data DecodeError : Type 0 where
  missing_payload : DecodeError
  unexpected_payload : Text → DecodeError

-- `err.Error()`
unfoldable pub error_text : DecodeError → Text
error_text missing_payload = codes "missing payload field " ++ (34 ∷ field_payload ++ 34 ∷ [])
error_text (unexpected_payload name) = codes "unexpected payload type " ++ name

unfoldable pub payload_of : Option Value → DecodeError ⊎ Text
payload_of none = inl missing_payload
payload_of (some (str v)) = inr v
payload_of (some (bytes v)) = inr v
payload_of (some (other name)) = inl (unexpected_payload name)

-- A count that is absent or no number stays 0.
unfoldable pub retry_of : Option Value → ℤ
unfolding atoi
retry_of (some (str s)) = elim (atoi s) [ none ↦ pos 0 | some n ↦ n ]
retry_of _ = pos 0

unfoldable pub add_header : Option Text → Value → Map Text Text → Map Text Text
add_header (some k) (str v) headers = insert Text-discrete k v headers
add_header _ _ headers = headers

unfoldable pub headers_of : Map Text Value → Map Text Text
unfolding trim_header add_header
headers_of [] = []
headers_of ((k, v) ∷ values) = add_header (trim_header k) v (headers_of values)

unfoldable pub decode_message : XMessage → DecodeError ⊎ Task
unfolding payload_of retry_of headers_of
decode_message msg = elim (payload_of (lookup Text-discrete field_payload msg.values)) [
  | inl e ↦ inl e
  | inr payload ↦ inr (record {
    message = record { id = msg.id; payload = payload; headers = headers_of msg.values };
    retry_count = retry_of (lookup Text-discrete field_retry msg.values);
  })
]

-- `t.RetryCount++`
unfoldable pub increment : ℤ → ℤ
increment (pos n) = pos (n + 1)
increment (negsuc zero) = pos 0
increment (negsuc (suc n)) = negsuc n

-- `limit > 0 && n > limit`, the test of `ShouldDLQ` and of the limit of delayed retries.
unfoldable pub exceeds : ℤ → ℕ → Bool
exceeds (pos n) limit = ltb 0 limit && ltb limit n
exceeds (negsuc n) limit = false

-- A member of the sorted set: the JSON of an `asyncEnvelope`, or a string that is none.
pub data Member : Type 0 where
  envelope : Task → Member
  garbled : Text → Member

abbrev pub nanos_per_second : ℕ
nanos_per_second = 1000000000

-- `Backoff`; `jitter` is its computation with a random float64, cut off at 0. The square of a count
-- of 96,000 or more overflows in Go, which is left out here.
unfoldable pub backoff : (max_backoff : ℕ) → (jitter : ℕ → ℕ) → ℤ → ℕ
backoff max_backoff jitter (pos zero) = 0
backoff max_backoff jitter (pos (suc n)) =
    let d = suc n * suc n * nanos_per_second in
    jitter (if ltb 0 max_backoff && ltb max_backoff d then max_backoff else d)
backoff max_backoff jitter (negsuc n) = 0
