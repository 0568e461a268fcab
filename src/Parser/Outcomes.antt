-- ===== src/Parser/Outcomes.antt =====
-- Which parse tasks the subscriber drops, retries and acknowledges.
use dota2_analysis.Base.{◌≡◌, ◌⊎◌, inl, inr, Option, none, some, ℤ}
use dota2_analysis.Base.Numbers.{itoa}
use dota2_analysis.Base.Text.{Text}
use dota2_analysis.Handlers.{HandlerError, wrapped, translate, error_translator, chain, outcome_of}
use dota2_analysis.Handlers.Verdict.{verdict, outcome_of-translate, err_drop-dropped, none-handled}
use dota2_analysis.Queue.{Message, Outcome, handled, dropped}
use dota2_analysis.Decode.{Json}
use dota2_analysis.Decode.Root.{decode_match, validate}
use dota2_analysis.Decode.Domain.{Match}
use dota2_analysis.Parser.{
  GetAnswer, missing, get_failed, payload_of, Payloads, IngestAnswer, ingested, duplicate, refused,
  Ingester, State, on_ingested, on_validated, on_match, on_payload, on_task, handle_message,
  parse_handler,
}

abbrev pub ingest_verdict : IngestAnswer → Outcome
ingest_verdict ingested = handled
ingest_verdict duplicate = handled
ingest_verdict (refused e) = verdict (wrapped e)

module _ (json : Json) (ps : Payloads) (ing : Ingester) where
  abbrev pub valid_verdict : Match → Option Text → ing.World → Outcome
  valid_verdict m none w = ingest_verdict (ing.ingest m w).0
  valid_verdict m (some why) w = dropped

  abbrev pub match_verdict : HandlerError ⊎ Match → ing.World → Outcome
  match_verdict (inl e) w = verdict e
  match_verdict (inr m) w = valid_verdict m (validate m) w

  abbrev pub payload_verdict : ℤ → GetAnswer → ing.World → Outcome
  payload_verdict id missing w = dropped
  payload_verdict id (get_failed e) w = verdict (wrapped e)
  payload_verdict id (payload_of blob) w = match_verdict (decode_match json id blob) w

  -- What a task is worth: its payload may not decode, or that of its match may be missing or bad.
  abbrev pub task_verdict : HandlerError ⊎ ℤ → State ps ing → Outcome
  task_verdict (inl e) st = verdict e
  task_verdict (inr id) st = payload_verdict id (ps.get (itoa id) st.store).0 st.world

  on_ingested-outcome :
      (key : Text) (answer : IngestAnswer) (st : State ps ing)
      → outcome_of (translate (on_ingested json ps ing key answer st).0) ≡ ingest_verdict answer
  unfolding on_ingested
  on_ingested-outcome key ingested st = none-handled
  on_ingested-outcome key duplicate st = none-handled
  on_ingested-outcome key (refused e) st = outcome_of-translate (wrapped e)

  on_validated-outcome :
      (key : Text) (m : Match) (why : Option Text) (st : State ps ing)
      → outcome_of (translate (on_validated json ps ing key m why st).0)
        ≡ valid_verdict m why st.world
  unfolding on_validated
  on_validated-outcome key m none st =
      on_ingested-outcome key (ing.ingest m st.world).0
        (record st { world = (ing.ingest m st.world).1 })
  on_validated-outcome key m (some why) st = err_drop-dropped

  on_match-outcome :
      (key : Text) (decoded : HandlerError ⊎ Match) (st : State ps ing)
      → outcome_of (translate (on_match json ps ing key decoded st).0)
        ≡ match_verdict decoded st.world
  unfolding on_match
  on_match-outcome key (inl e) st = outcome_of-translate e
  on_match-outcome key (inr m) st = on_validated-outcome key m (validate m) st

  on_payload-outcome :
      (id : ℤ) (answer : GetAnswer) (st : State ps ing)
      → outcome_of (translate (on_payload json ps ing id answer st).0)
        ≡ payload_verdict id answer st.world
  unfolding on_payload
  on_payload-outcome id missing st = err_drop-dropped
  on_payload-outcome id (get_failed e) st = outcome_of-translate (wrapped e)
  on_payload-outcome id (payload_of blob) st =
      on_match-outcome (itoa id) (decode_match json id blob) st

  on_task-outcome :
      (task : HandlerError ⊎ ℤ) (st : State ps ing)
      → outcome_of (translate (on_task json ps ing task st).0) ≡ task_verdict task st
  unfolding on_task
  on_task-outcome (inl e) st = outcome_of-translate e
  on_task-outcome (inr id) st =
      let got = ps.get (itoa id) st.store in
      on_payload-outcome id got.0 (record st { store = got.1 })

  -- A subscriber with the handler of the parser acknowledges a task whose match is ingested or was so
  -- before, whether or not its payload can then be deleted. It drops a task whose payload is missing,
  -- whose match does not pass the validation, or which fails with a JSON error or a wish to be dropped;
  -- it retries a task that fails with any other error, those of `decodeMatch` that are no JSON errors
  -- included.
  pub parse_handler-outcome :
      (msg : Message) (st : State ps ing)
      → outcome_of (parse_handler json ps ing msg st).0 ≡ task_verdict (json.task msg.payload) st
  unfolding parse_handler chain error_translator handle_message
  parse_handler-outcome msg st = on_task-outcome (json.task msg.payload) st
