-- ===== src/Tests/Fetcher.antt =====
-- The fetcher: go-ingestion/internal/worker/fetcher.
use dota2_analysis.Base.{ℕ, suc, ◌≡◌, refl, ◌⊎◌, inr, [], ◌∷◌, ◌==◌, if◌then◌else◌, pos}
use dota2_analysis.Base.Text.{codes, decimal}
use dota2_analysis.Handlers.{permanent_http, outcome_of}
use dota2_analysis.Payload as Payload
use dota2_analysis.Queue as Queue
use dota2_analysis.Queue.{Message, Outcome, dropped}
use dota2_analysis.Fetcher.{
  HttpAnswer, no_response, response, Env, Config, State, target_url, handle_message, fetch_handler,
}
use dota2_analysis.Fetcher.Delivered.{
  store_at, parse_queue, Delivered, Refused, handle_message-Delivered,
}
use dota2_analysis.Fetcher.Errors.{task_verdict, fetch_handler-outcome}

abbrev pub answer_of : ℕ → HttpAnswer
answer_of w = if w == 0 then response 200 (inr (codes "{}")) else no_response (permanent_http 404)

-- Every payload is the task of match 5, and the first request is answered.
abbrev pub env : Env
env = record {
  World = ℕ;
  decode = λ payload. inr (pos 5);
  local_get = λ url w. (answer_of w, suc w);
  doer_get = λ url w. (answer_of w, suc w);
}

abbrev pub cfg : Config
cfg = record {
  upstream_url = codes "http://up//";
  local_url = [];
  payload_ttl = 60;
  http_timeout = 15;
}

abbrev pub msg : Message
msg = record { id = codes "1"; payload = codes "{}"; headers = (codes "trace", codes "7") ∷ [] }

abbrev pub begin : State env (store_at 100) parse_queue
begin = record {
  world = 0;
  store = Payload.new;
  queue = Queue.new (record { max_retries = 3 });
  failures = [];
  successes = 0;
}

url_built : target_url (codes "http://up//") (pos 5) ≡ codes "http://up/5"
unfolding target_url decimal
url_built = refl

handle_message-Delivered_example :
    Delivered env 100 cfg msg begin (handle_message env (store_at 100) parse_queue cfg msg begin)
    ⊎ Refused env 100 cfg begin (handle_message env (store_at 100) parse_queue cfg msg begin)
handle_message-Delivered_example = handle_message-Delivered env 100 cfg msg begin

fetch_handler-outcome_example :
    outcome_of (fetch_handler env (store_at 100) parse_queue cfg msg (record begin { world = 1 })).0
    ≡ task_verdict env
        (store_at 100)
        parse_queue
        cfg
        (λ k b t s. refl)
        (λ m q. refl)
        msg
        (record begin { world = 1 })
        (inr (pos 5))
fetch_handler-outcome_example =
    fetch_handler-outcome env (store_at 100) parse_queue cfg (λ k b t s. refl) (λ m q. refl) msg
      (record begin { world = 1 })
