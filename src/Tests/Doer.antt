-- ===== src/Tests/Doer.antt =====
-- Requests through a proxy: go-ingestion/internal/proxy/httpdo/doer.go over the in-memory pool.
use dota2_analysis.Base.{ℕ, ◌+◌, ◌≤◌, ◌≡◌, refl, true, false, List, [], ◌∷◌, Option, some}
use dota2_analysis.Base.Text.{Text, codes}
use dota2_analysis.Proxy.{new, is_leased}
use dota2_analysis.Doer.{
  Net, Config, new_config, State, Reply, unanswered, answered, bytes, other_net, record_header,
  do_request,
}
use dota2_analysis.Doer.Inmem.{inmem_pool}
use dota2_analysis.Doer.Leases.{leased-do_request}
use dota2_analysis.Doer.Attempts.{sent-do_request}
use dota2_analysis.Doer.Limits.{IsAcceptable, do_request-IsAcceptable}

-- A network that counts the requests and answers from a script.
abbrev Script : Type 0
Script = ℕ × List Reply

abbrev answer : Script → Reply × Script
answer (n, []) = (unanswered other_net, (n + 1, []))
answer (n, r ∷ rs) = (r, (n + 1, rs))

abbrev net : Net
net = record {
  World = Script;
  cancelled = λ w. false;
  now = λ w. w.0;
  send = λ c w. answer w;
  wait = λ w. w;
  rewinds = λ w. true;
  parse_scheme = λ url. some (codes "http");
  has_dialer = λ url. true;
}

abbrev start : List Reply → State net inmem_pool
start replies = record {
  pool = new (codes "http://a" ∷ codes "http://b" ∷ []);
  cache = record { transports = []; access_order = [] };
  world = (0, replies);
}

abbrev cfg : Config
cfg = new_config 3 false

-- The first proxy has a bad clock, the second answers.
abbrev second_answers : State net inmem_pool
second_answers = start (unanswered record_header ∷ answered 200 (bytes (7 ∷ [])) ∷ [])

abbrev not_found : State net inmem_pool
not_found = start (answered 404 (bytes []) ∷ [])

leased-do_request_example :
    is_leased (do_request net inmem_pool cfg second_answers).1.pool (codes "http://b")
    ≡ is_leased second_answers.pool (codes "http://b")
leased-do_request_example = leased-do_request net inmem_pool cfg second_answers (codes "http://b")

answer_counts : (c : Option Text) (w : Script) → (answer w).1.0 ≡ w.0 + 1
answer_counts c (n, []) = refl
answer_counts c (n, r ∷ rs) = refl

sent-do_request_example : (do_request net inmem_pool cfg second_answers).1.world.0 ≤ 0 + 3 + 0
unfolding new_config
sent-do_request_example =
    sent-do_request net inmem_pool cfg (λ w. w.0) answer_counts (λ w. refl) second_answers

do_request-IsAcceptable_example : IsAcceptable (do_request net inmem_pool cfg second_answers).0
do_request-IsAcceptable_example = do_request-IsAcceptable net inmem_pool cfg second_answers
