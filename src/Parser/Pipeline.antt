-- ===== src/Parser/Pipeline.antt =====
-- A match on its way from the fetcher through the payload store and the parser to the database.
use dota2_analysis.Base.{
  ℕ, ◌+◌, ◌≤◌, ◌≡◌, refl, ap, ◌∙◌, ◌&&◌, ◌⊎◌, inr, Option, none, some, if◌then◌else◌, ltb, ℤ, arith,
}
use dota2_analysis.Base.Numbers.{itoa}
use dota2_analysis.Base.Text.{Text}
use dota2_analysis.Handlers.{HandlerError, chain, error_translator, translate}
use dota2_analysis.Payload as Payload
use dota2_analysis.Payload.Expiry.{get-put, get-remove}
use dota2_analysis.Queue.{Message}
use dota2_analysis.Queue as Queue
use dota2_analysis.Ingester.{GoError, MatchWriter, on_answer, ingest}
use dota2_analysis.Ingester as Ingest
use dota2_analysis.Fetcher as Fetcher
use dota2_analysis.Fetcher.Delivered.{store_at, parse_queue, parse_task}
use dota2_analysis.Decode.{Json}
use dota2_analysis.Decode.Domain.{Match}
use dota2_analysis.Decode.Root.{decode_match, validate}
use dota2_analysis.Parser.{
  Payloads, payload_of, ingested, Ingester, State, delete_payload, on_ingested, on_validated,
  on_match, on_payload, on_task, handle_message, parse_handler,
}
use dota2_analysis.Parser.Lost.{payloads_at}
use dota2_analysis.Parser.Lost as Lost
use dota2_analysis.Parser.Stored.{MatchDb, writer, answer_of, ingester_of}

-- The fetcher has the data of the match: it ends without an error, keeps the data and queues a task.
module _ (env : Fetcher.Env) (now : ℕ) (cfg : Fetcher.Config) where
  abbrev pub Fetching : Type 0
  Fetching = Fetcher.State env (store_at now) parse_queue

  fetched :
      (msg : Message) (st : Fetching) (id : ℤ) (blob : Text)
      → env.decode msg.payload ≡ inr id
      → (Fetcher.fetch_one env (store_at now) parse_queue cfg id st.world).0 ≡ inr blob
      → (r : Option HandlerError × Fetching) × (Fetcher.handle_message env
            (store_at now)
            parse_queue
            cfg
            msg
            st
          ≡ r)
        × (r.0 ≡ none)
        × (r.1.store ≡ Payload.put now (itoa id) blob cfg.payload_ttl st.store)
        × (r.1.queue ≡ Queue.publish st.queue (parse_task id msg))
  unfolding Fetcher.handle_message Fetcher.on_decoded Fetcher.on_fetched Fetcher.on_put
      Fetcher.on_published
  fetched msg st id blob decodes got =
      let st' : Fetching = record st {
        world = (Fetcher.fetch_one env (store_at now) parse_queue cfg id st.world).1;
      } in
      (
        Fetcher.on_fetched env (store_at now) parse_queue cfg id msg (inr blob) st',
        ap (λ d. Fetcher.on_decoded env (store_at now) parse_queue cfg msg d st) decodes
            ∙ ap (λ f. Fetcher.on_fetched env (store_at now) parse_queue cfg id msg f st') got,
        refl,
        refl,
        refl,
      )

module _ (json : Json) (ps : Payloads) (ing : Ingester) where
  -- A task whose match decodes, passes the validation and is ingested.
  parsed :
      (task : Message) (st : State ps ing) (id : ℤ) (blob : Text) (m : Match)
      → json.task task.payload ≡ inr id
      → (ps.get (itoa id) st.store).0 ≡ payload_of blob
      → decode_match json id blob ≡ inr m
      → validate m ≡ none
      → (ing.ingest m st.world).0 ≡ ingested
      → (r : Option HandlerError × State ps ing) × (handle_message json ps ing task st ≡ r)
        × (r.0 ≡ none)
        × (r.1.store ≡ (ps.delete (itoa id) (ps.get (itoa id) st.store).1).1)
        × (r.1.world ≡ (ing.ingest m st.world).1)
  unfolding handle_message on_task on_payload on_match on_validated on_ingested delete_payload
  parsed task st id blob m is_task found decodes valid accepted =
      let key : Text = itoa id in
      let st₁ : State ps ing = record st { store = (ps.get key st.store).1 } in
      let st₂ : State ps ing = record st₁ { world = (ing.ingest m st.world).1 } in
      (
        on_ingested json ps ing key ingested st₂,
        ap (λ t. on_task json ps ing t st) is_task
            ∙ ap (λ a. on_payload json ps ing id a st₁) found
            ∙ ap (λ d. on_match json ps ing key d st₁) decodes
            ∙ ap (λ w. on_validated json ps ing key m w st₁) valid
            ∙ ap (λ a. on_ingested json ps ing key a st₂) accepted,
        refl,
        refl,
        refl,
      )

ingest-accepted :
    (db : MatchDb) (m : Match) (s : Ingest.State (writer db))
    → (db.ingest_match m s.repo).0 ≡ none
    → ((ingester_of db).ingest m s).0 ≡ ingested
      × (((ingester_of db).ingest m s).1.repo ≡ (db.ingest_match m s.repo).1)
unfolding ingest on_answer
ingest-accepted db m s accepted =
    let s' : Ingest.State (writer db) = record s { repo = (db.ingest_match m s.repo).1 } in
    (
      ap (λ a. answer_of (on_answer (writer db) m a s').0) accepted,
      ap (λ a. (on_answer (writer db) m a s').1.repo) accepted,
    )

module _ (env : Fetcher.Env) (now : ℕ) (cfg : Fetcher.Config) (json : Json) (db : MatchDb) where
  abbrev pub after_fetch :
      Message → Fetching env now cfg → Option HandlerError × Fetching env now cfg
  after_fetch = Fetcher.fetch_handler env (store_at now) parse_queue cfg

  abbrev pub Parsing : ℕ → Type 0
  Parsing later = State (payloads_at later) (ingester_of db)

  -- Let a fetch task and the parse task that is made for it decode to one match, let the match be
  -- fetched, and its data decode to a match that passes the validation and that the database accepts.
  -- Then the fetch task succeeds and one parse task is queued; when the parser handles that task before
  -- the time to live of the data is over (at any time where it has none), with the payload store as the
  -- fetcher left it, the task succeeds, the database has ingested the match, and the data is deleted.
  pub parse_handler-fetch_handler :
      (msg task : Message) (st : Fetching env now cfg) (later : ℕ) (pst : Parsing later) (id : ℤ)
      (blob : Text) (m : Match)
      → env.decode msg.payload ≡ inr id
      → (Fetcher.fetch_one env (store_at now) parse_queue cfg id st.world).0 ≡ inr blob
      → task.payload ≡ Fetcher.marshal_task id
      → json.task (Fetcher.marshal_task id) ≡ inr id
      → pst.store ≡ (after_fetch msg st).1.store
      → (cfg.payload_ttl ≡ 0) ⊎ (later ≤ now + cfg.payload_ttl)
      → decode_match json id blob ≡ inr m
      → validate m ≡ none
      → (db.ingest_match m pst.world.repo).0 ≡ none
      → ((after_fetch msg st).0 ≡ none)
        × ((after_fetch msg st).1.queue ≡ Queue.publish st.queue (parse_task id msg))
        × ((parse_handler json (payloads_at later) (ingester_of db) task pst).0 ≡ none)
        × ((parse_handler json (payloads_at later) (ingester_of db) task pst).1.world.repo
            ≡ (db.ingest_match m pst.world.repo).1)
        × ((Payload.get later
              (itoa id)
              (parse_handler json (payloads_at later) (ingester_of db) task pst).1.store).0
            ≡ none)
  unfolding Fetcher.fetch_handler parse_handler chain error_translator translate
  parse_handler-fetch_handler msg task st later pst id blob m decodes got marshals is_task same
        in_time whole valid accepted =
      let (r, runs, ends, stored, queued) = fetched env now cfg msg st id blob decodes got in
      let kept : pst.store ≡ Payload.put now (itoa id) blob cfg.payload_ttl st.store =
        same ∙ ap (λ x. x.1.store) runs ∙ stored in
      let fresh : (if ltb 0 cfg.payload_ttl && ltb (now + cfg.payload_ttl) later
            then none
            else some blob)
          ≡ some blob =
        ground (arith, in_time) in
      let read : (Payload.get later (itoa id) pst.store).0 ≡ some blob =
        ap (λ s. (Payload.get later (itoa id) s).0) kept
        ∙ get-put now later cfg.payload_ttl (itoa id) blob st.store
        ∙ fresh in
      let (answered, written) = ingest-accepted db m pst.world accepted in
      let (q, handles, succeeds, removed, world) =
        parsed json (payloads_at later) (ingester_of db) task pst id blob m
          (ap json.task marshals ∙ is_task) (ap Lost.answer_of read) whole valid answered in
      (
        ap translate (ap (λ x. x.0) runs ∙ ends),
        ap (λ x. x.1.queue) runs ∙ queued,
        ap translate (ap (λ x. x.0) handles ∙ succeeds),
        ap (λ x. x.1.world.repo) handles ∙ ap (λ w. w.repo) world ∙ written,
        ap (λ s. (Payload.get later (itoa id) s).0) (ap (λ x. x.1.store) handles ∙ removed)
            ∙ get-remove later (itoa id) (Payload.get later (itoa id) pst.store).1,
      )
