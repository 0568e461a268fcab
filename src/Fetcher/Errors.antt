-- ===== src/Fetcher/Errors.antt =====
-- Which fetch tasks the subscriber drops, retries and acknowledges.
use dota2_analysis.Base.{ℕ, ◌≡◌, refl, ap, ◌∙◌, true, ◌⊎◌, inl, inr, none, some, Option-cases, ℤ}
use dota2_analysis.Base.Numbers.{itoa}
use dota2_analysis.Base.Text.{Text}
use dota2_analysis.Handlers.{
  Publisher, HandlerError, translate, error_translator, chain, outcome_of,
}
use dota2_analysis.Handlers.Verdict.{verdict, outcome_of-translate, err_drop-dropped, none-handled}
use dota2_analysis.Queue.{Message, Outcome, handled, dropped}
use dota2_analysis.Fetcher.{
  PayloadStore, Env, Config, State, as_permanent, fetch_one, on_published, on_put, on_fetched,
  on_decoded, handle_message, fetch_handler,
}

-- The verdict on a fetch task whose payload decodes.
abbrev pub fetch_verdict : HandlerError ⊎ Text → Outcome
fetch_verdict (inl e) = elim (as_permanent e) [ some status ↦ dropped | none ↦ verdict e ]
fetch_verdict (inr blob) = handled

-- A store and a publisher that answer without an error.
abbrev pub Puts : PayloadStore → Type 0
Puts ps = (key blob : Text) (ttl : ℕ) (s : ps.Store) → (ps.put key blob ttl s).0 ≡ true

abbrev pub Publishes : Publisher → Type 0
Publishes out = (msg : Message) (q : out.Q) → (out.publish msg q).0 ≡ true

module _ (env : Env) (ps : PayloadStore) (out : Publisher) (cfg : Config) (puts : Puts ps)
    (publishes : Publishes out) where
  on_put-handled :
      (id : ℤ) (msg : Message) (st : State env ps out)
      → (on_put env ps out cfg id msg true st).0 ≡ none
  unfolding on_put on_published
  on_put-handled id msg st = rw (publishes _ st.queue, on_published) refl

  on_fetched-outcome :
      (id : ℤ) (msg : Message) (fetched : HandlerError ⊎ Text) (st : State env ps out)
      → outcome_of (translate (on_fetched env ps out cfg id msg fetched st).0)
        ≡ fetch_verdict fetched
  unfolding on_fetched
  on_fetched-outcome id msg (inl e) st = elim (Option-cases (as_permanent e)) [
    | inl n ↦ rw (n, on_fetched, fetch_verdict) (outcome_of-translate e)
    | inr (status, p) ↦ rw (p, on_fetched, fetch_verdict) err_drop-dropped
  ]
  on_fetched-outcome id msg (inr blob) st =
      rw (puts (itoa id) blob cfg.payload_ttl st.store, on_fetched)
        (ap (λ e. outcome_of (translate e)) (on_put-handled id msg _) ∙ none-handled)

  -- What a task is worth: its payload may not decode, or the fetch of its match may fail.
  abbrev pub task_verdict : Message → State env ps out → HandlerError ⊎ ℤ → Outcome
  task_verdict msg st (inl e) = verdict e
  task_verdict msg st (inr id) = fetch_verdict (fetch_one env ps out cfg id st.world).0

  on_decoded-outcome :
      (msg : Message) (decoded : HandlerError ⊎ ℤ) (st : State env ps out)
      → outcome_of (translate (on_decoded env ps out cfg msg decoded st).0)
        ≡ task_verdict msg st decoded
  unfolding on_decoded
  on_decoded-outcome msg (inl e) st = outcome_of-translate e
  on_decoded-outcome msg (inr id) st =
      on_fetched-outcome id msg (fetch_one env ps out cfg id st.world).0
        (record st { world = (fetch_one env ps out cfg id st.world).1 })

  -- Let the payload store and the publisher answer without errors. Then a subscriber with the handler
  -- of the fetcher drops a task whose payload is no JSON of a task or whose fetch fails with a
  -- permanent status, a JSON error or a wish to be dropped; it retries a task whose payload or fetch
  -- fails in another way, and acknowledges a task whose match is fetched.
  pub fetch_handler-outcome :
      (msg : Message) (st : State env ps out)
      → outcome_of (fetch_handler env ps out cfg msg st).0
        ≡ task_verdict msg st (env.decode msg.payload)
  unfolding fetch_handler chain error_translator handle_message
  fetch_handler-outcome msg st = on_decoded-outcome msg (env.decode msg.payload) st
