-- ===== src/Link.antt =====
-- Round trips to a server of Redis over connections that may break, for the clients that send one
-- command or script at a time: go-ingestion/internal/dlq, proxy/redisproxy and dedup/redisseen.
use dota2_analysis.Base.{
  zero, suc, ◌≡◌, refl, Bool, true, false, ◌⊎◌, inl, inr, List, [], ◌∷◌, Option, none, some, take,
}
use dota2_analysis.RedisQueue.Client.{Fate, executed, cut}

-- Where no fate is left every round trip succeeds.
pub record Session (Db : Type 0) : Type 0 where
  pub db : Db
  pub fates : List Fate

unfoldable pub call_on :
    {Db A : Type 0} → List Fate → (Db → A × Db) → Session Db → Option A × Session Db
call_on [] c st = let (a, db) = c st.db in (some a, record st { db = db })
call_on (executed ∷ fates) c st =
    let (a, db) = c st.db in (some a, record st { db = db; fates = fates })
call_on (cut zero ∷ fates) c st = (none, record st { fates = fates })
call_on (cut (suc n) ∷ fates) c st =
    let (a, db) = c st.db in (none, record st { db = db; fates = fates })

-- One round trip: the answer, or an error of a command that was carried out or was not.
unfoldable pub call : {Db A : Type 0} → (Db → A × Db) → Session Db → Option A × Session Db
unfolding call_on
call c st = call_on st.fates c st

called_on {ℓ} :
    {Db A : Type 0} (fates : List Fate) (c : Db → A × Db) (st : Session Db) (P : Db → Type ℓ)
    → P st.db
    → P (c st.db).1
    → P (call_on fates c st).1.db
unfolding call_on
called_on [] c st P p q = q
called_on (executed ∷ fates) c st P p q = q
called_on (cut zero ∷ fates) c st P p q = p
called_on (cut (suc n) ∷ fates) c st P p q = q

-- A round trip has its effect, or none.
pub called {ℓ} :
    {Db A : Type 0} (c : Db → A × Db) (st : Session Db) (P : Db → Type ℓ)
    → P st.db
    → P (c st.db).1
    → P (call c st).1.db
unfolding call
called c st P p q = called_on st.fates c st P p q

unfoldable pub apply_each : {Db : Type 0} → List (Db → Db) → Db → Db
apply_each [] db = db
apply_each (c ∷ cs) db = apply_each cs (c db)

unfoldable pub pipeline_on :
    {Db : Type 0} → List Fate → List (Db → Db) → Session Db → Bool × Session Db
unfolding apply_each
pipeline_on [] cmds st = (true, record st { db = apply_each cmds st.db })
pipeline_on (executed ∷ fates) cmds st =
    (true, record st { db = apply_each cmds st.db; fates = fates })
pipeline_on (cut n ∷ fates) cmds st =
    (false, record st { db = apply_each (take n cmds) st.db; fates = fates })

-- A round trip of several commands, which may break between two of them.
unfoldable pub pipeline : {Db : Type 0} → List (Db → Db) → Session Db → Bool × Session Db
unfolding pipeline_on
pipeline cmds st = pipeline_on st.fates cmds st

call_on_cases :
    {Db A : Type 0} (fates : List Fate) (c : Db → A × Db) (st : Session Db)
    → (((call_on fates c st).0 ≡ some (c st.db).0) × ((call_on fates c st).1.db ≡ (c st.db).1))
      ⊎ (((call_on fates c st).0 ≡ none)
          × (((call_on fates c st).1.db ≡ st.db) ⊎ ((call_on fates c st).1.db ≡ (c st.db).1)))
unfolding call_on
call_on_cases [] c st = inl (refl, refl)
call_on_cases (executed ∷ fates) c st = inl (refl, refl)
call_on_cases (cut zero ∷ fates) c st = inr (refl, inl refl)
call_on_cases (cut (suc n) ∷ fates) c st = inr (refl, inr refl)

-- A round trip is answered, or there is an error and it has had its effect or none.
pub call_cases :
    {Db A : Type 0} (c : Db → A × Db) (st : Session Db)
    → (((call c st).0 ≡ some (c st.db).0) × ((call c st).1.db ≡ (c st.db).1))
      ⊎ (((call c st).0 ≡ none) × (((call c st).1.db ≡ st.db) ⊎ ((call c st).1.db ≡ (c st.db).1)))
unfolding call
call_cases c st = call_on_cases st.fates c st
