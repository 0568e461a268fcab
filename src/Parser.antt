-- ===== src/Parser.antt =====
-- go-ingestion/internal/worker/parser/parser.go: a parse task is answered by decoding the raw data of
-- its match, validating it and handing it to the ingester.
pub mod Outcomes
pub mod Safety
pub mod Lost
pub mod Stored
pub mod Pipeline
use dota2_analysis.Base.{
  ℕ, suc, ◌+◌, Bool, true, false, not, ◌⊎◌, inl, inr, List, [], ◌∷◌, Option, none, some,
  if◌then◌else◌, ℤ, pos,
}
use dota2_analysis.Base.Numbers.{itoa}
use dota2_analysis.Base.Text.{Text}
use dota2_analysis.Handlers.{HandlerError, err_drop, wrapped, Handler, chain, error_translator}
use dota2_analysis.Queue.{Message}
use dota2_analysis.Decode.{Json}
use dota2_analysis.Decode.Root.{is_positive, decode_match, validate}
use dota2_analysis.Decode.Domain.{Match}

-- The kinds of go-ingestion/internal/metrics that a parser reports.
pub data ParseKind : Type 0 where
  kind_decode kind_payload kind_validate kind_ingest : ParseKind

-- What `Get` of a payload store answers; `missing` is `ErrNotFound`.
pub data GetAnswer : Type 0 where
  missing : GetAnswer
  get_failed : HandlerError → GetAnswer
  payload_of : Text → GetAnswer

-- The interface `payload.Store`, as a parser uses it; false is an error.
pub record Payloads : Type 1 where
  pub Store : Type 0
  pub get : (key : Text) → Store → GetAnswer × Store
  pub delete : (key : Text) → Store → Bool × Store
  pub extend_ttl : (key : Text) (ttl : ℕ) → Store → Bool × Store

-- What `Ingest` answers; `duplicate` is an error that is `dedup.ErrAlreadySeen`.
pub data IngestAnswer : Type 0 where
  ingested duplicate : IngestAnswer
  refused : HandlerError → IngestAnswer

-- The interface `Ingester`
pub record Ingester : Type 1 where
  pub World : Type 0
  pub ingest : Match → World → IngestAnswer × World

-- `Batch` and `Block`, which the code keeps but does not use.
pub record Config : Type 0 where
  pub batch : ℤ
  pub block : ℤ

pub data NewError : Type 0 where
  queue_required store_required ingester_required metrics_required : NewError

-- `New`, with the defaults that it sets, in nanoseconds.
unfoldable pub new : (queue store ingester metrics : Bool) → Config → NewError ⊎ Config
unfolding is_positive
new queue store ingester metrics cfg =
    if not queue
    then inl queue_required
    else if not store
    then inl store_required
    else if not ingester
    then inl ingester_required
    else if not metrics
    then inl metrics_required
    else inr (record {
      batch = if is_positive cfg.batch then cfg.batch else pos 10;
      block = if is_positive cfg.block then cfg.block else pos 2000000000;
    })

-- `2*time.Hour`
abbrev pub two_hours : ℕ
two_hours = 7200000000000

-- The metrics are the reports made so far.
pub record State (ps : Payloads) (ing : Ingester) : Type 0 where
  pub store : ps.Store
  pub world : ing.World
  pub failures : List ParseKind
  pub successes : ℕ
  pub duplicates : ℕ

module _ (json : Json) (ps : Payloads) (ing : Ingester) where
  unfoldable pub report : ParseKind → State ps ing → State ps ing
  report kind st = record st { failures = kind ∷ st.failures }

  -- An error of `Delete` or `ExtendTTL` is only logged.
  unfoldable pub delete_payload : (key : Text) → State ps ing → State ps ing
  delete_payload key st = record st { store = (ps.delete key st.store).1 }

  unfoldable pub on_ingested :
      (key : Text) → IngestAnswer → State ps ing → Option HandlerError × State ps ing
  unfolding report delete_payload
  on_ingested key ingested st =
      (none, delete_payload key (record st { successes = suc st.successes }))
  on_ingested key duplicate st =
      (none, delete_payload key (record st { duplicates = suc st.duplicates }))
  on_ingested key (refused e) st =
      let st' = report kind_ingest st in
      (some (wrapped e), record st' { store = (ps.extend_ttl key two_hours st'.store).1 })

  unfoldable pub on_validated :
      (key : Text) → Match → Option Text → State ps ing → Option HandlerError × State ps ing
  unfolding report on_ingested
  on_validated key m (some why) st = (some err_drop, report kind_validate st)
  on_validated key m none st =
      let (answer, w) = ing.ingest m st.world in on_ingested key answer (record st { world = w })

  unfoldable pub on_match :
      (key : Text) → HandlerError ⊎ Match → State ps ing → Option HandlerError × State ps ing
  unfolding report on_validated validate
  on_match key (inl e) st = (some e, report kind_decode st)
  on_match key (inr m) st = on_validated key m (validate m) st

  unfoldable pub on_payload :
      (id : ℤ) → GetAnswer → State ps ing → Option HandlerError × State ps ing
  unfolding report on_match decode_match itoa
  on_payload id missing st = (some err_drop, report kind_payload st)
  on_payload id (get_failed e) st = (some (wrapped e), report kind_payload st)
  on_payload id (payload_of blob) st = on_match (itoa id) (decode_match json id blob) st

  unfoldable pub on_task : HandlerError ⊎ ℤ → State ps ing → Option HandlerError × State ps ing
  unfolding report on_payload itoa
  on_task (inl e) st = (some e, report kind_decode st)
  on_task (inr id) st =
      let (answer, s) = ps.get (itoa id) st.store in on_payload id answer (record st { store = s })

  unfoldable pub handle_message : Handler (State ps ing)
  unfolding on_task
  handle_message msg st = on_task (json.task msg.payload) st

  -- The handler with which `Run` subscribes.
  unfoldable pub parse_handler : Handler (State ps ing)
  unfolding chain error_translator handle_message
  parse_handler = chain handle_message (error_translator ∷ [])
