-- ===== src/Parser/Lost.antt =====
-- The parser over the in-memory payload store: what becomes of the raw data of a match.
use dota2_analysis.Base.{
  ℕ, ◌≡◌, refl, sym, ap, subst, ◌∙◌, ◌⊎◌, inl, inr, true, Option, none, some, ℤ, arith,
}
use dota2_analysis.Base.Numbers.{itoa}
use dota2_analysis.Base.Text.{Text, Text-discrete}
use dota2_analysis.Handlers.{HandlerError}
use dota2_analysis.Queue.{Message}
use dota2_analysis.Payload as Payload
use dota2_analysis.Payload.Expiry.{get-get, get-remove_other, extended, get-extended}
use dota2_analysis.Decode.{Json}
use dota2_analysis.Decode.Root.{decode_match, validate}
use dota2_analysis.Decode.Domain.{Match}
use dota2_analysis.Parser.{
  GetAnswer, missing, payload_of, Payloads, IngestAnswer, ingested, duplicate, refused, Ingester,
  State, two_hours, on_ingested, on_validated, on_match, on_payload, on_task, handle_message,
}

abbrev pub hour : ℕ
hour = 3600000000000

abbrev pub answer_of : Option Text → GetAnswer
answer_of none = missing
answer_of (some blob) = payload_of blob

-- The in-memory store at a time.
abbrev pub payloads_at : ℕ → Payloads
payloads_at now = record {
  Store = Payload.Store;
  get = λ key s. (answer_of (Payload.get now key s).0, (Payload.get now key s).1);
  delete = λ key s. (true, Payload.remove key s);
  extend_ttl = λ key ttl s. (true, extended hour now key ttl s);
}

abbrev pub Accepted : IngestAnswer → Type 0
Accepted ingested = Unit
Accepted duplicate = Unit
Accepted (refused e) = ⊥

module _ (now : ℕ) (ing : Ingester) where
  abbrev pub St : Type 0
  St = State (payloads_at now) ing

  abbrev pub Result : Type 0
  Result = Option HandlerError × St

  abbrev pub Reads : (key blob : Text) → St → Type 0
  Reads key blob st = (Payload.get now key st.store).0 ≡ some blob

module _ (json : Json) (now : ℕ) (ing : Ingester) (Stored : ing.World → Match → Type 0) where
  -- The task was for this key and has succeeded, and the match of the payload is stored.
  abbrev pub Replaced : (key blob : Text) → Result now ing → Type 0
  Replaced key blob r =
      (id : ℤ) × (m : Match) × (key ≡ itoa id)
      × (decode_match json id blob ≡ inr m)
      × (validate m ≡ none)
      × (r.0 ≡ none)
      × Stored r.1.world m

-- An ingester that accepts a match, or knows it already, has stored it.
module _ (json : Json) (now : ℕ) (ing : Ingester) (Stored : ing.World → Match → Type 0)
    (stores : (m : Match) (w : ing.World)
      → Accepted (ing.ingest m w).0
      → Stored (ing.ingest m w).1 m) where
  on_ingested_cases :
      (k key blob : Text) (answer : IngestAnswer) (st : St now ing)
      → Reads now ing key blob st
      → Reads now ing key blob (on_ingested json (payloads_at now) ing k answer st).1
        ⊎ ((k ≡ key)
            × Accepted answer
            × ((on_ingested json (payloads_at now) ing k answer st).0 ≡ none))
  unfolding on_ingested
  on_ingested_cases k key blob ingested st h = elim (Text-discrete k key) [
    | yes same ↦ inr (same, tt, refl)
    | no differ ↦ inl (get-remove_other now k key st.store differ ∙ h)
  ]
  on_ingested_cases k key blob duplicate st h = elim (Text-discrete k key) [
    | yes same ↦ inr (same, tt, refl)
    | no differ ↦ inl (get-remove_other now k key st.store differ ∙ h)
  ]
  on_ingested_cases k key blob (refused e) st h =
      inl (get-extended hour now two_hours k key st.store blob h)

  on_ingested_world :
      (k : Text) (answer : IngestAnswer) (st : St now ing)
      → (on_ingested json (payloads_at now) ing k answer st).1.world ≡ st.world
  unfolding on_ingested
  on_ingested_world k ingested st = refl
  on_ingested_world k duplicate st = refl
  on_ingested_world k (refused e) st = refl

  on_validated_cases :
      (k key blob : Text) (m : Match) (why : Option Text) (st : St now ing)
      → Reads now ing key blob st
      → Reads now ing key blob (on_validated json (payloads_at now) ing k m why st).1
        ⊎ ((k ≡ key)
            × (why ≡ none)
            × ((on_validated json (payloads_at now) ing k m why st).0 ≡ none)
            × Stored (on_validated json (payloads_at now) ing k m why st).1.world m)
  unfolding on_validated
  on_validated_cases k key blob m (some e) st h = inl h
  on_validated_cases k key blob m none st h =
      let r = ing.ingest m st.world in
      let st' : St now ing = record st { world = r.1 } in
      elim (on_ingested_cases k key blob r.0 st' h) [
        | inl kept ↦ inl kept
        | inr (same, accepted, ends) ↦ inr (
          same,
          refl,
          ends,
          subst (λ w. Stored w m) (sym (on_ingested_world k r.0 st')) (stores m st.world accepted),
        )
      ]

  on_match_cases :
      (id : ℤ) (key blob read : Text) (decoded : HandlerError ⊎ Match) (st : St now ing)
      → decode_match json id read ≡ decoded
      → (itoa id ≡ key → read ≡ blob)
      → Reads now ing key blob st
      → Reads now ing key blob (on_match json (payloads_at now) ing (itoa id) decoded st).1
        ⊎ Replaced json now ing Stored key blob
            (on_match json (payloads_at now) ing (itoa id) decoded st)
  unfolding on_match
  on_match_cases id key blob read (inl e) st d same h = inl h
  on_match_cases id key blob read (inr m) st d same h =
      elim (on_validated_cases (itoa id) key blob m (validate m) st h) [
        | inl kept ↦ inl kept
        | inr (k, valid, ends, stored) ↦
            inr (id, m, sym k, ap (decode_match json id) (sym (same k)) ∙ d, valid, ends, stored)
      ]

  on_payload_cases :
      (id : ℤ) (key blob : Text) (read : Option Text) (st : St now ing)
      → (itoa id ≡ key → read ≡ some blob)
      → Reads now ing key blob st
      → Reads now ing key blob (on_payload json (payloads_at now) ing id (answer_of read) st).1
        ⊎ Replaced json now ing Stored key blob
            (on_payload json (payloads_at now) ing id (answer_of read) st)
  unfolding on_payload
  on_payload_cases id key blob none st same h = inl h
  on_payload_cases id key blob (some read) st same h =
      on_match_cases id key blob read (decode_match json id read) st refl
        (λ k. let e = same k in ground arith) h

  on_task_cases :
      (key blob : Text) (task : HandlerError ⊎ ℤ) (st : St now ing)
      → Reads now ing key blob st
      → Reads now ing key blob (on_task json (payloads_at now) ing task st).1
        ⊎ Replaced json now ing Stored key blob (on_task json (payloads_at now) ing task st)
  unfolding on_task
  on_task_cases key blob (inl e) st h = inl h
  on_task_cases key blob (inr id) st h =
      on_payload_cases id key blob (Payload.get now (itoa id) st.store).0
        (record st { store = (Payload.get now (itoa id) st.store).1 })
        (λ k. ap (λ i. (Payload.get now i st.store).0) k ∙ h)
        (get-get now now (itoa id) key st.store (omega arith) ∙ h)

  pub handle_message_cases :
      (key blob : Text) (msg : Message) (st : St now ing)
      → Reads now ing key blob st
      → Reads now ing key blob (handle_message json (payloads_at now) ing msg st).1
        ⊎ Replaced json now ing Stored key blob (handle_message json (payloads_at now) ing msg st)
  unfolding handle_message
  handle_message_cases key blob msg st h = on_task_cases key blob (json.task msg.payload) st h
