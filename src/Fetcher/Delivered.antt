-- ===== src/Fetcher/Delivered.antt =====
-- The fetcher over the in-memory payload store and the in-memory queue of parse tasks.
use dota2_analysis.Base.{
  ℕ, ◌+◌, ◌≡◌, refl, ap, ◌∙◌, true, ◌&&◌, ◌⊎◌, inl, inr, [], Option, none, some, if◌then◌else◌, ltb,
  Option-cases, ℤ,
}
use dota2_analysis.Base.Numbers.{itoa}
use dota2_analysis.Base.Text.{Text}
use dota2_analysis.Handlers.{Publisher, HandlerError, err_drop}
use dota2_analysis.Payload as Payload
use dota2_analysis.Payload.Expiry.{get-put}
use dota2_analysis.Queue as Queue
use dota2_analysis.Queue.{Message}
use dota2_analysis.Fetcher.{
  PayloadStore, Env, Config, State, as_permanent, fetch_one, on_published, on_put, on_fetched,
  on_decoded, handle_message, marshal_task,
}

-- `Put` of the in-memory store at a time.
abbrev pub store_at : ℕ → PayloadStore
store_at now = record {
  Store = Payload.Store;
  put = λ key blob ttl s. (true, Payload.put now key blob ttl s);
}

abbrev pub parse_queue : Publisher
parse_queue = record { Q = Queue.Queue; publish = λ msg q. (true, Queue.publish q msg) }

abbrev pub parse_task : ℤ → Message → Message
parse_task id msg = record { id = []; payload = marshal_task id; headers = msg.headers }

module _ (env : Env) (now : ℕ) (cfg : Config) where
  abbrev pub St : Type 0
  St = State env (store_at now) parse_queue

  abbrev pub Result : Type 0
  Result = Option HandlerError × St

  -- The fetch has succeeded, the raw data is in the store while its time to live lasts, and one
  -- parse task for the match, with the headers of the fetch task, is queued.
  abbrev pub Delivered : Message → St → Result → Type 0
  Delivered msg st r =
      (id : ℤ) × (blob : Text) × (env.decode msg.payload ≡ inr id)
      × ((fetch_one env (store_at now) parse_queue cfg id st.world).0 ≡ inr blob)
      × (r.0 ≡ none)
      × ((later : ℕ)
          → (Payload.get later (itoa id) r.1.store).0 ≡ (
              if ltb 0 cfg.payload_ttl && ltb (now + cfg.payload_ttl) later
              then none
              else some blob))
      × (r.1.queue ≡ Queue.publish st.queue (parse_task id msg))

  -- The handler has failed, and neither the store nor the queue has changed.
  abbrev pub Refused : St → Result → Type 0
  Refused st r =
      ((e : HandlerError) × (r.0 ≡ some e)) × (r.1.store ≡ st.store) × (r.1.queue ≡ st.queue)

  on_fetched_cases :
      (id : ℤ) (msg : Message) (fetched : HandlerError ⊎ Text) (st : St)
      → ((blob : Text) × (fetched ≡ inr blob)
          × ((on_fetched env (store_at now) parse_queue cfg id msg fetched st).0 ≡ none)
          × ((on_fetched env (store_at now) parse_queue cfg id msg fetched st).1.store
              ≡ Payload.put now (itoa id) blob cfg.payload_ttl st.store)
          × ((on_fetched env (store_at now) parse_queue cfg id msg fetched st).1.queue
              ≡ Queue.publish st.queue (parse_task id msg)))
        ⊎ Refused st (on_fetched env (store_at now) parse_queue cfg id msg fetched st)
  unfolding on_fetched on_put on_published
  on_fetched_cases id msg (inr blob) st = inl (blob, refl, refl, refl, refl)
  on_fetched_cases id msg (inl e) st = inr (elim (Option-cases (as_permanent e)) [
    | inl n ↦ ((e, rw (n, on_fetched) refl), refl, refl)
    | inr (status, p) ↦ ((err_drop, rw (p, on_fetched) refl), refl, refl)
  ])

  on_decoded_cases :
      (msg : Message) (decoded : HandlerError ⊎ ℤ) (st : St)
      → env.decode msg.payload ≡ decoded
      → Delivered msg st (on_decoded env (store_at now) parse_queue cfg msg decoded st)
        ⊎ Refused st (on_decoded env (store_at now) parse_queue cfg msg decoded st)
  unfolding on_decoded
  on_decoded_cases msg (inl e) st decodes = inr ((e, refl), refl, refl)
  on_decoded_cases msg (inr id) st decodes =
      let fetched = fetch_one env (store_at now) parse_queue cfg id st.world in
      elim (on_fetched_cases id msg fetched.0 (record st { world = fetched.1 })) [
        | inl (blob, got, ends, stored, queued) ↦ inl (
          id,
          blob,
          decodes,
          got,
          ends,
          λ later.
              ap (λ s. (Payload.get later (itoa id) s).0) stored
              ∙ get-put now later cfg.payload_ttl (itoa id) blob st.store,
          queued,
        )
        | inr refused ↦ inr refused
      ]

  -- With the in-memory store and queue, the fetcher either delivers or refuses a fetch task. If it
  -- delivers, the match was fetched, its raw data can be read under its id until the time to live is
  -- over (for ever where that is 0), and exactly one parse task for it, with the headers of the fetch
  -- task, is appended to the queue. Otherwise it returns an error, and store and queue are unchanged.
  pub handle_message-Delivered :
      (msg : Message) (st : St)
      → Delivered msg st (handle_message env (store_at now) parse_queue cfg msg st)
        ⊎ Refused st (handle_message env (store_at now) parse_queue cfg msg st)
  unfolding handle_message
  handle_message-Delivered msg st = on_decoded_cases msg (env.decode msg.payload) st refl
