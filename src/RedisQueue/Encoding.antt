-- ===== src/RedisQueue/Encoding.antt =====
-- The fields that the queue writes to a stream, read back by `decodeMessage`.
use dota2_analysis.Base.{
  ◌≡◌, ◌≢◌, refl, sym, ap, subst, ◌∙◌, inl, inr, [], ◌∷◌, Option, none, some, arith, if_pos, if_neg,
  Option-cases, Map, lookup, insert, delete, lookup-insert_self, lookup-insert_ne, pos,
}
use dota2_analysis.Base.Text.{Text, Text-discrete, decimal, decimal_from}
use dota2_analysis.Queue.{Message}
use dota2_analysis.RedisQueue.{
  Task, Value, str, bytes, other, XMessage, field_payload, field_retry, header_key, trim_header,
  add_headers, entry_values, publish_values, task_values, payload_of, retry_of, add_header,
  headers_of, decode_message,
}
use dota2_analysis.Base.Numbers.{itoa, IsInt, atoi-itoa}

abbrev text_of : Option Value → Option Text
text_of (some (str s)) = some s
text_of _ = none

abbrev IsStr : Value → Type 0
IsStr (str _) = Unit
IsStr _ = ⊥

abbrev AllStr : Map Text Value → Type 0
AllStr [] = Unit
AllStr ((k, v) ∷ m) = IsStr v × AllStr m

AllStr-delete : (k : Text) (m : Map Text Value) → AllStr m → AllStr (delete Text-discrete k m)
unfolding delete
AllStr-delete k [] h = tt
AllStr-delete k ((j, v) ∷ m) h = elim (Text-discrete j k) [
  | yes e ↦ rw (if_pos (Text-discrete j k) e _ _) (AllStr-delete k m h.1)
  | no n ↦ rw (if_neg (Text-discrete j k) n _ _) (h.0, AllStr-delete k m h.1)
]

AllStr-insert :
    (k s : Text) (m : Map Text Value) → AllStr m → AllStr (insert Text-discrete k (str s) m)
unfolding insert
AllStr-insert k s m h = (tt, AllStr-delete k m h)

AllStr-add_headers :
    (hs : Map Text Text) (m : Map Text Value) → AllStr m → AllStr (add_headers hs m)
unfolding add_headers
AllStr-add_headers [] m h = h
AllStr-add_headers ((k, v) ∷ hs) m h = AllStr-insert (header_key k) v _ (AllStr-add_headers hs m h)

-- Only the key of a header is trimmed.
trim_header-eq : (j k : Text) → trim_header j ≡ some k → j ≡ header_key k
unfolding trim_header
trim_header-eq [] k h = cc
trim_header-eq (a ∷ []) k h = cc
trim_header-eq (a ∷ b ∷ r) k h = ground arith

trim_header-header_key : (k : Text) → trim_header (header_key k) ≡ some k
unfolding trim_header
trim_header-header_key k = refl

header_key-injective : (j k : Text) → header_key j ≡ header_key k → j ≡ k
header_key-injective j k e = cc

-- A header is found under its key in the fields.
lookup-headers_of :
    (m : Map Text Value)
    → AllStr m
    → (k : Text)
    → lookup Text-discrete k (headers_of m) ≡ text_of (lookup Text-discrete (header_key k) m)
unfolding lookup headers_of
lookup-headers_of [] h k = refl
lookup-headers_of ((j, str s) ∷ m) h k = elim (Option-cases (trim_header j)) [
  | inl out ↦
      let apart : j ≢ header_key k = λ e.
        let bad : ◌≡◌ {A = Option Text} none (some k) =
          sym out ∙ ap trim_header e ∙ trim_header-header_key k in
        cc in
      rw (out, add_header)
        (rw (if_neg (Text-discrete j (header_key k)) apart _ _) (lookup-headers_of m h.1 k))
  | inr (i, e) ↦
      let at = trim_header-eq j i e in
      rw (e, add_header)
        (elim (Text-discrete i k) [
          | yes same ↦
              let here : j ≡ header_key k = at ∙ ap header_key same in
              rw (if_pos (Text-discrete j (header_key k)) here _ _) (
                subst
                  (λ l. lookup Text-discrete l (insert Text-discrete i s (headers_of m)) ≡ some s)
                  same (lookup-insert_self Text-discrete i s (headers_of m)))
          | no n ↦
              let apart : j ≢ header_key k = λ e. n (header_key-injective i k (sym at ∙ e)) in
              rw (if_neg (Text-discrete j (header_key k)) apart _ _)
                (lookup-insert_ne Text-discrete i k s (headers_of m) n ∙ lookup-headers_of m h.1 k)
        ])
]
lookup-headers_of ((j, bytes s) ∷ m) h k = absurd h.0
lookup-headers_of ((j, other s) ∷ m) h k = absurd h.0

add_headers_frame :
    (hs : Map Text Text) (m : Map Text Value) (j : Text)
    → trim_header j ≡ none
    → lookup Text-discrete j (add_headers hs m) ≡ lookup Text-discrete j m
unfolding add_headers
add_headers_frame [] m j out = refl
add_headers_frame ((k, v) ∷ hs) m j out =
    let apart : header_key k ≢ j = λ e.
      let bad : ◌≡◌ {A = Option Text} none (some k) =
        sym out ∙ ap trim_header (sym e) ∙ trim_header-header_key k in
      cc in
    lookup-insert_ne Text-discrete (header_key k) j (str v) (add_headers hs m) apart
    ∙ add_headers_frame hs m j out

lookup-add_headers :
    (hs : Map Text Text) (m : Map Text Value)
    → ((k : Text) → lookup Text-discrete (header_key k) m ≡ none)
    → (k : Text)
    → text_of (lookup Text-discrete (header_key k) (add_headers hs m)) ≡ lookup Text-discrete k hs
unfolding add_headers lookup
lookup-add_headers [] m free k = ap text_of (free k)
lookup-add_headers ((j, v) ∷ hs) m free k = elim (Text-discrete j k) [
  | yes e ↦ rw (if_pos (Text-discrete j k) e _ _) (
      ap text_of (
        subst
          (λ l.
            lookup Text-discrete (header_key l)
              (insert Text-discrete (header_key j) (str v) (add_headers hs m))
            ≡ some (str v))
          e (lookup-insert_self Text-discrete (header_key j) (str v) (add_headers hs m))))
  | no n ↦ rw (if_neg (Text-discrete j k) n _ _) (
      ap text_of (
        lookup-insert_ne Text-discrete (header_key j) (header_key k) (str v) (add_headers hs m)
          (λ e. n (header_key-injective j k e)))
      ∙ lookup-add_headers hs m free k)
]

abbrev base_values : Text → Text → Map Text Value
base_values payload retry =
    insert Text-discrete field_retry (str retry)
      (insert Text-discrete field_payload (str payload) [])

p-ne-r : field_retry ≢ field_payload
p-ne-r e = ground arith

base_values-payload :
    (payload retry : Text)
    → lookup Text-discrete field_payload (base_values payload retry) ≡ some (str payload)
base_values-payload payload retry =
    lookup-insert_ne Text-discrete field_retry field_payload (str retry) _ p-ne-r
    ∙ lookup-insert_self Text-discrete field_payload (str payload) []

base_values-header :
    (payload retry k : Text)
    → lookup Text-discrete (header_key k) (base_values payload retry) ≡ none
unfolding lookup
base_values-header payload retry k =
    lookup-insert_ne Text-discrete field_retry (header_key k) (str retry) _ (λ e. cc)
    ∙ lookup-insert_ne Text-discrete field_payload (header_key k) (str payload) [] (λ e. cc)

published :
    (msg : Message)
    → publish_values msg ≡ task_values (record { message = msg; retry_count = pos 0 })
unfolding publish_values task_values itoa decimal decimal_from
published msg = refl

module _ (t : Task) (id : Text) where
  abbrev sent : XMessage
  sent = record { id = id; values = task_values t }

  sent-payload : payload_of (lookup Text-discrete field_payload sent.values) ≡ inr t.payload
  unfolding task_values entry_values payload_of trim_header
  sent-payload = ap payload_of (
      add_headers_frame t.headers (base_values t.payload (itoa t.retry_count)) field_payload refl
      ∙ base_values-payload t.payload (itoa t.retry_count))

  sent-retry :
      IsInt t.retry_count → retry_of (lookup Text-discrete field_retry sent.values) ≡ t.retry_count
  unfolding task_values entry_values retry_of trim_header
  sent-retry small =
      ap retry_of (
        add_headers_frame t.headers (base_values t.payload (itoa t.retry_count)) field_retry refl
        ∙ lookup-insert_self Text-discrete field_retry (str (itoa t.retry_count))
            (insert Text-discrete field_payload (str t.payload) []))
      ∙ rw (atoi-itoa t.retry_count small, retry_of) refl

  sent-headers :
      (k : Text)
      → lookup Text-discrete k (headers_of sent.values) ≡ lookup Text-discrete k t.headers
  unfolding task_values entry_values
  sent-headers k =
      lookup-headers_of (task_values t)
        (AllStr-add_headers t.headers _
          (AllStr-insert field_retry _ _ (AllStr-insert field_payload _ [] tt)))
        k
      ∙ lookup-add_headers t.headers (base_values t.payload (itoa t.retry_count))
          (base_values-header t.payload (itoa t.retry_count)) k

  -- A task whose retry count is an int of 64 bits is read back from the fields that are written for
  -- it: under the id of its entry, with its payload and its retry count, and with the value of each
  -- of its headers. The fields that Publish writes are those of a task that has had no retry.
  pub decode_message-task_values :
      IsInt t.retry_count
      → ((t' : Task) × (decode_message (record { id = id; values = task_values t }) ≡ inr t')
          × (t'.id ≡ id)
          × (t'.payload ≡ t.payload)
          × (t'.retry_count ≡ t.retry_count)
          × ((k : Text) → lookup Text-discrete k t'.headers ≡ lookup Text-discrete k t.headers))
        × (publish_values t.message
            ≡ task_values (record { message = t.message; retry_count = pos 0 }))
  unfolding decode_message
  decode_message-task_values small = (
    (
      record {
        message = record { id = id; payload = t.payload; headers = headers_of (task_values t) };
        retry_count = retry_of (lookup Text-discrete field_retry (task_values t));
      },
      rw (sent-payload, decode_message) refl,
      refl,
      refl,
      sent-retry small,
      sent-headers,
    ),
    published t.message,
  )
