-- ===== src/Parser/Stored.antt =====
-- The parser with the ingester of go-ingestion/internal/worker/ingester over a database of matches.
use dota2_analysis.Base.{
  ℕ, ◌≡◌, refl, ◌⊎◌, inl, inr, Bool, true, ◌||◌, false, Option, none, some, if◌then◌else◌,
  Bool-cases, ℤ, pos, negsuc, arith,
}
use dota2_analysis.Base.Text.{Text, codes}
use dota2_analysis.Handlers.{other}
use dota2_analysis.Queue.{Message}
use dota2_analysis.Ingester.{
  GoError, MatchWriter, on_answer, ingest, is_duplicate_constraint, is_already_seen,
}
use dota2_analysis.Ingester as Ingest
use dota2_analysis.Decode.{Json}
use dota2_analysis.Decode.Domain.{Match}
use dota2_analysis.Parser.{IngestAnswer, ingested, duplicate, refused, Ingester, handle_message}
use dota2_analysis.Parser.Lost.{Accepted, payloads_at, St, Reads, Replaced, handle_message_cases}

-- The method of a database that `Ingest` calls, and which matches it has.
pub record MatchDb : Type 1 where
  pub Repo : Type 0
  pub ingest_match : Match → Repo → Option GoError × Repo
  pub IsStored : Repo → ℕ → Type 0

abbrev pub natural : ℤ → ℕ
natural (pos n) = n
natural (negsuc n) = 0

abbrev pub writer : MatchDb → MatchWriter
writer db = record {
  Repo = db.Repo;
  Match = Match;
  match_id = λ m. natural m.match_id;
  ingest_match = db.ingest_match;
  IsStored = db.IsStored;
}

-- What a parser tells apart of the error of an `Ingest`.
abbrev pub answer_of : Option GoError → IngestAnswer
answer_of none = ingested
answer_of (some e) = if is_already_seen e then duplicate else refused (other (codes "ingest"))

abbrev pub ingester_of : MatchDb → Ingester
ingester_of db = record {
  World = Ingest.State (writer db);
  ingest = λ m s. (answer_of (ingest (writer db) m s).0, (ingest (writer db) m s).1);
}

abbrev pub is_known : Option GoError → Bool
is_known none = false
is_known (some e) = is_duplicate_constraint (some e) || is_already_seen e

-- The database has a match that it accepts, and one that it refuses as a duplicate.
module _ (db : MatchDb)
    (stores : (m : Match) (r : db.Repo)
      → (db.ingest_match m r).0 ≡ none
      → db.IsStored (db.ingest_match m r).1 (natural m.match_id))
    (has : (m : Match) (r : db.Repo)
      → is_known (db.ingest_match m r).0 ≡ true
      → db.IsStored (db.ingest_match m r).1 (natural m.match_id)) where
  abbrev pub StoredIn : Ingest.State (writer db) → Match → Type 0
  StoredIn s m = db.IsStored s.repo (natural m.match_id)

  on_answer-StoredIn :
      (m : Match) (answer : Option GoError) (s : Ingest.State (writer db))
      → (answer ≡ none → StoredIn s m)
      → (is_known answer ≡ true → StoredIn s m)
      → Accepted (answer_of (on_answer (writer db) m answer s).0)
      → StoredIn (on_answer (writer db) m answer s).1 m
  unfolding on_answer is_already_seen
  on_answer-StoredIn m none s f g a = f refl
  on_answer-StoredIn m (some e) s f g a = elim (Bool-cases (is_duplicate_constraint (some e))) [
    | inl again ↦ rw (again, on_answer) (g (ground arith))
    | inr new ↦ elim (Bool-cases (is_already_seen e)) [
      | inl seen ↦ rw (new, on_answer) (g (ground arith))
      | inr unseen ↦ absurd (ground (arith, a, new, unseen))
    ]
  ]

  ingest-StoredIn :
      (m : Match) (s : Ingest.State (writer db))
      → Accepted (answer_of (ingest (writer db) m s).0)
      → StoredIn (ingest (writer db) m s).1 m
  unfolding ingest
  ingest-StoredIn m s a =
      on_answer-StoredIn m (db.ingest_match m s.repo).0
        (record s { repo = (db.ingest_match m s.repo).1 }) (stores m s.repo) (has m s.repo) a

  -- Let the database have every match that it accepts or refuses as one that it has. Then raw data that
  -- can be read from the in-memory store under a key can still be read after any parse task, unless
  -- the task was for the match of this key, the data decoded to a match that passed the validation,
  -- the database now has that match, and the task has succeeded.
  pub handle_message-Replaced :
      (json : Json) (now : ℕ) (key blob : Text) (msg : Message) (st : St now (ingester_of db))
      → Reads now (ingester_of db) key blob st
      → Reads now
          (ingester_of db)
          key
          blob
          (handle_message json (payloads_at now) (ingester_of db) msg st).1
        ⊎ Replaced json now
            (ingester_of db)
            StoredIn
            key
            blob
            (handle_message json (payloads_at now) (ingester_of db) msg st)
  handle_message-Replaced json now =
      handle_message_cases json now (ingester_of db) StoredIn ingest-StoredIn
