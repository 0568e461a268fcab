-- ===== src/Parser/Safety.antt =====
-- What the parser hands to the ingester.
use dota2_analysis.Base.{◌≡◌, refl, ◌⊎◌, inl, inr, Option, none, some, ℤ}
use dota2_analysis.Base.Numbers.{itoa}
use dota2_analysis.Base.Text.{Text}
use dota2_analysis.Handlers.{HandlerError}
use dota2_analysis.Queue.{Message}
use dota2_analysis.Decode.{Json}
use dota2_analysis.Decode.Root.{decode_match, validate}
use dota2_analysis.Decode.Domain.{Match}
use dota2_analysis.Decode.WellFormed.{IsWellFormed, decode_match-IsWellFormed}
use dota2_analysis.Parser.{
  GetAnswer, missing, get_failed, payload_of, Payloads, IngestAnswer, ingested, duplicate, refused,
  Ingester, State, on_ingested, on_validated, on_match, on_payload, on_task, handle_message,
}

module _ (json : Json) (ps : Payloads) (ing : Ingester) (P : ing.World → Type 0)
    (keeps : (m : Match) (w : ing.World) → IsWellFormed m → P w → P (ing.ingest m w).1) where
  on_ingested-safe :
      (key : Text) (answer : IngestAnswer) (st : State ps ing)
      → P st.world
      → P (on_ingested json ps ing key answer st).1.world
  unfolding on_ingested
  on_ingested-safe key ingested st h = h
  on_ingested-safe key duplicate st h = h
  on_ingested-safe key (refused e) st h = h

  on_validated-safe :
      (key : Text) (m : Match) (why : Option Text) (st : State ps ing)
      → (why ≡ none → IsWellFormed m)
      → P st.world
      → P (on_validated json ps ing key m why st).1.world
  unfolding on_validated
  on_validated-safe key m (some why) st good h = h
  on_validated-safe key m none st good h =
      on_ingested-safe key (ing.ingest m st.world).0
        (record st { world = (ing.ingest m st.world).1 }) (keeps m st.world (good refl) h)

  on_match-safe :
      (id : ℤ) (blob key : Text) (decoded : HandlerError ⊎ Match) (st : State ps ing)
      → decode_match json id blob ≡ decoded
      → P st.world
      → P (on_match json ps ing key decoded st).1.world
  unfolding on_match
  on_match-safe id blob key (inl e) st d h = h
  on_match-safe id blob key (inr m) st d h =
      on_validated-safe key m (validate m) st (decode_match-IsWellFormed json id blob m d) h

  on_payload-safe :
      (id : ℤ) (answer : GetAnswer) (st : State ps ing)
      → P st.world
      → P (on_payload json ps ing id answer st).1.world
  unfolding on_payload
  on_payload-safe id missing st h = h
  on_payload-safe id (get_failed e) st h = h
  on_payload-safe id (payload_of blob) st h =
      on_match-safe id blob (itoa id) (decode_match json id blob) st refl h

  on_task-safe :
      (task : HandlerError ⊎ ℤ) (st : State ps ing)
      → P st.world
      → P (on_task json ps ing task st).1.world
  unfolding on_task
  on_task-safe (inl e) st h = h
  on_task-safe (inr id) st h =
      let got = ps.get (itoa id) st.store in
      on_payload-safe id got.0 (record st { store = got.1 }) h

  -- The ingester is handed well-formed matches only: a property of its state that the ingestion of any
  -- well-formed match preserves is preserved by the parser, whatever the task, the payload store and
  -- the decoder of JSON are.
  pub handle_message-safe :
      (msg : Message) (st : State ps ing)
      → P st.world
      → P (handle_message json ps ing msg st).1.world
  unfolding handle_message
  handle_message-safe msg st h = on_task-safe (json.task msg.payload) st h
