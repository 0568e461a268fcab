-- ===== src/Fetcher.antt =====
-- go-ingestion/internal/worker/fetcher/fetcher.go: a fetch task is answered by the raw data of its
-- match, which is put into the payload store before a parse task is published.
pub mod Delivered
pub mod Errors
use dota2_analysis.Base.{
  ℕ, suc, ◌+◌, Bool, true, false, not, ◌&&◌, ◌⊎◌, inl, inr, List, [], ◌∷◌, ◌++◌, Option, none, some,
  leb, ◌==◌, if◌then◌else◌, ℤ,
}
use dota2_analysis.Base.Numbers.{itoa}
use dota2_analysis.Base.Text.{Text, codes}
use dota2_analysis.Handlers.{
  Publisher, HandlerError, err_drop, deadline_exceeded, permanent_http, other, wrapped, Handler,
  chain, error_translator,
}
use dota2_analysis.Queue.{Message}

-- The kinds of go-ingestion/internal/metrics that a fetcher reports.
pub data FetchKind : Type 0 where
  kind_unknown kind_decode kind_payload kind_rate_limit kind_not_found kind_http kind_timeout :
      FetchKind

-- The interface `payload.Store`, of which a fetcher uses `Put`; false is an error.
pub record PayloadStore : Type 1 where
  pub Store : Type 0
  pub put : (key blob : Text) (ttl : ℕ) → Store → Bool × Store

-- The answer to a request: it cannot be built, there is no response, or a status with a body or the
-- error of reading it.
pub data HttpAnswer : Type 0 where
  no_request : Text → HttpAnswer
  no_response : HandlerError → HttpAnswer
  response : (status : ℕ) (body : HandlerError ⊎ Text) → HttpAnswer

-- What is outside of a fetcher: the decoder of JSON, the client for the local url, and the one that
-- goes through the proxies.
pub record Env : Type 1 where
  pub World : Type 0
  pub decode : Text → HandlerError ⊎ ℤ
  pub local_get : (url : Text) → World → HttpAnswer × World
  pub doer_get : (url : Text) → World → HttpAnswer × World

-- `Batch` and `Block`, which the code keeps but does not use, are left out.
pub record Config : Type 0 where
  pub upstream_url : Text
  pub local_url : Text
  pub payload_ttl : ℕ
  pub http_timeout : ℕ

pub data NewError : Type 0 where
  queues_required store_required metrics_required doer_required url_required : NewError

unfoldable pub is_unset : Text → Bool
is_unset [] = true
is_unset (c ∷ cs) = false

-- `New`, with the defaults that it sets, in nanoseconds.
unfoldable pub new : (queues store metrics doer : Bool) → Config → NewError ⊎ Config
unfolding is_unset
new queues store metrics doer cfg =
    if not queues
    then inl queues_required
    else if not store
    then inl store_required
    else if not metrics
    then inl metrics_required
    else if not doer && is_unset cfg.local_url
    then inl doer_required
    else if is_unset cfg.upstream_url && is_unset cfg.local_url
    then inl url_required
    else inr (record cfg {
      payload_ttl = if cfg.payload_ttl == 0 then 3600000000000 else cfg.payload_ttl;
      http_timeout = if cfg.http_timeout == 0 then 15000000000 else cfg.http_timeout;
    })

-- `strings.TrimRight(url, "/")`
unfoldable pub cons_trimmed : ℕ → Text → Text
cons_trimmed c [] = if c == 47 then [] else c ∷ []
cons_trimmed c (d ∷ cs) = c ∷ d ∷ cs

unfoldable pub trim_slashes : Text → Text
unfolding cons_trimmed
trim_slashes [] = []
trim_slashes (c ∷ cs) = cons_trimmed c (trim_slashes cs)

unfoldable pub target_url : Text → ℤ → Text
unfolding trim_slashes itoa
target_url base match_id = trim_slashes base ++ (47 ∷ itoa match_id)

unfoldable pub wrap_error : HandlerError ⊎ Text → HandlerError ⊎ Text
wrap_error (inl e) = inl (wrapped e)
wrap_error (inr body) = inr body

unfoldable pub local_result : HttpAnswer → HandlerError ⊎ Text
unfolding wrap_error
local_result (no_request e) = inl (other e)
local_result (no_response e) = inl (wrapped e)
local_result (response status body) =
    if leb 400 status then inl (permanent_http status) else wrap_error body

-- The doer has judged the status already.
unfoldable pub doer_result : HttpAnswer → HandlerError ⊎ Text
doer_result (no_request e) = inl (other e)
doer_result (no_response e) = inl e
doer_result (response status body) = body

unfoldable pub as_permanent : HandlerError → Option ℕ
as_permanent (permanent_http status) = some status
as_permanent (wrapped e) = as_permanent e
as_permanent _ = none

-- `errors.Is(err, context.DeadlineExceeded)`
unfoldable pub is_deadline : HandlerError → Bool
is_deadline deadline_exceeded = true
is_deadline (wrapped e) = is_deadline e
is_deadline _ = false

unfoldable pub classify : HandlerError → FetchKind
unfolding as_permanent is_deadline
classify e = elim (as_permanent e) [
  | some code ↦
      if code == 429 then kind_rate_limit else if code == 404 then kind_not_found else kind_http
  | none ↦ if is_deadline e then kind_timeout else kind_unknown
]

-- `json.Marshal` of a `Task`.
unfoldable pub marshal_task : ℤ → Text
unfolding itoa
marshal_task match_id = 123 ∷ 34 ∷ codes "match_id" ++ (34 ∷ 58 ∷ itoa match_id ++ 125 ∷ [])

module _ (env : Env) (ps : PayloadStore) (out : Publisher) where
  -- The metrics are the reports made so far.
  pub record State : Type 0 where
    pub world : env.World
    pub store : ps.Store
    pub queue : out.Q
    pub failures : List FetchKind
    pub successes : ℕ

module _ (env : Env) (ps : PayloadStore) (out : Publisher) (cfg : Config) where
  unfoldable pub report : FetchKind → State env ps out → State env ps out
  report kind st = record st { failures = kind ∷ st.failures }

  unfoldable pub fetch_one : ℤ → env.World → (HandlerError ⊎ Text) × env.World
  unfolding is_unset target_url local_result doer_result
  fetch_one match_id w =
      if is_unset cfg.local_url
      then (let (a, w') = env.doer_get (target_url cfg.upstream_url match_id) w in
          (doer_result a, w'))
      else (let (a, w') = env.local_get (target_url cfg.local_url match_id) w in
          (local_result a, w'))

  unfoldable pub on_published : Bool → State env ps out → Option HandlerError × State env ps out
  unfolding report
  on_published true st = (none, record st { successes = st.successes + 1 })
  on_published false st = (some (wrapped (other (codes "out-queue"))), report kind_unknown st)

  unfoldable pub on_put :
      ℤ → Message → Bool → State env ps out → Option HandlerError × State env ps out
  unfolding report on_published marshal_task
  on_put match_id msg false st = (some (wrapped (other (codes "payload"))), report kind_payload st)
  on_put match_id msg true st =
      let (ok, q) =
        out.publish (record { id = []; payload = marshal_task match_id; headers = msg.headers })
          st.queue in
      on_published ok (record st { queue = q })

  -- A permanent error of HTTP becomes `ErrDrop`.
  unfoldable pub on_fetched :
      ℤ → Message → HandlerError ⊎ Text → State env ps out → Option HandlerError × State env ps out
  unfolding report classify as_permanent on_put itoa
  on_fetched match_id msg (inl e) st = (
    elim (as_permanent e) [ some status ↦ some err_drop | none ↦ some e ],
    report (classify e) st,
  )
  on_fetched match_id msg (inr blob) st =
      let (ok, s) = ps.put (itoa match_id) blob cfg.payload_ttl st.store in
      on_put match_id msg ok (record st { store = s })

  unfoldable pub on_decoded :
      Message → HandlerError ⊎ ℤ → State env ps out → Option HandlerError × State env ps out
  unfolding report fetch_one on_fetched
  on_decoded msg (inl e) st = (some e, report kind_decode st)
  on_decoded msg (inr match_id) st =
      let (fetched, w) = fetch_one match_id st.world in
      on_fetched match_id msg fetched (record st { world = w })

  unfoldable pub handle_message : Handler (State env ps out)
  unfolding on_decoded
  handle_message msg st = on_decoded msg (env.decode msg.payload) st

  -- The handler with which `Run` subscribes.
  unfoldable pub fetch_handler : Handler (State env ps out)
  unfolding chain error_translator handle_message
  fetch_handler = chain handle_message (error_translator ∷ [])
