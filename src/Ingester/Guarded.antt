-- ===== src/Ingester/Guarded.antt =====
-- The circuit breaker in front of the database.
use dota2_analysis.Base.{
  ◌+◌, ◌<◌, ◌≡◌, refl, sym, ap, ◌∙◌, inl, inr, Bool, true, false, ◌||◌, List, [], ◌∷◌, Option, some,
  length, arith, Bool-cases,
}
use dota2_analysis.Breaker.{Breaker, closed, opened, new_circuit_breaker, allow, record_failure}
use dota2_analysis.Ingester.{
  GoError, wrapped, already_seen, is_validation, is_already_seen, is_duplicate_constraint,
  classify_db_error, as_pg_error, MatchWriter, State, on_answer, count_result, resilient_ingest,
}

-- An error that says that the match is bad, not the database.
abbrev pub is_bad_match : GoError → Bool
is_bad_match e = is_already_seen e || is_validation (some e)

count_result_bad :
    (e : GoError) (cb : Breaker) → is_bad_match e ≡ true → count_result (some e) cb ≡ cb
unfolding count_result
count_result_bad e cb h = ground arith

count_result_outage :
    (e : GoError) (cb : Breaker)
    → is_bad_match e ≡ false
    → count_result (some e) cb ≡ record_failure cb
unfolding count_result
count_result_outage e cb h = ground arith

is_bad_match-wrapped : (e : GoError) → is_bad_match (wrapped e) ≡ is_bad_match e
unfolding is_already_seen is_validation classify_db_error as_pg_error
is_bad_match-wrapped e = refl

is_bad_match_duplicate :
    (e : GoError) → is_duplicate_constraint (some e) ≡ true → is_bad_match e ≡ true
unfolding is_duplicate_constraint is_validation
is_bad_match_duplicate e h = ground arith

module _ (w : MatchWriter) where
  -- What the ingester returns for an error of the database is as bad as the error.
  on_answer_bad :
      (m : w.Match) (e : GoError) (s : State w)
      → (e' : GoError) × ((on_answer w m (some e) s).0 ≡ some e')
        × (is_bad_match e' ≡ is_bad_match e)
  unfolding on_answer is_already_seen
  on_answer_bad m e s = elim (Bool-cases (is_duplicate_constraint (some e))) [
    | inl again ↦ (already_seen, rw (again, on_answer) refl, sym (is_bad_match_duplicate e again))
    | inr failed ↦ (wrapped e, rw (failed, on_answer) refl, is_bad_match-wrapped e)
  ]

  guarded :
      (m : w.Match) (cb : Breaker) (s : State w) (e : GoError)
      → allow cb ≡ true
      → (w.ingest_match m s.repo).0 ≡ some e
      → (e' : GoError) × ((resilient_ingest w m (some cb, s)).1.0
          ≡ some (count_result (some e') cb))
        × (is_bad_match e' ≡ is_bad_match e)
  unfolding resilient_ingest
  guarded m cb s e open_now answered =
      let (e', returned, same) =
        on_answer_bad m e (record s { repo = (w.ingest_match m s.repo).1 }) in
      (
        e',
        rw (open_now, resilient_ingest) (rw answered (ap (λ r. some (count_result r cb)) returned)),
        same,
      )

  -- A match that the database rejects as a duplicate or for a foreign key, or with an error that
  -- says that it was seen, does not count against the breaker: an allowed call leaves it as it was.
  pub resilient_ingest_bad :
      (m : w.Match) (cb : Breaker) (s : State w) (e : GoError)
      → allow cb ≡ true
      → (w.ingest_match m s.repo).0 ≡ some e
      → is_bad_match e ≡ true
      → (resilient_ingest w m (some cb, s)).1.0 ≡ some cb
  resilient_ingest_bad m cb s e open_now answered bad =
      let (e', now, same) = guarded m cb s e open_now answered in
      now ∙ ap some (count_result_bad e' cb (same ∙ bad))

  resilient_ingest_outage :
      (m : w.Match) (cb : Breaker) (s : State w) (e : GoError)
      → allow cb ≡ true
      → (w.ingest_match m s.repo).0 ≡ some e
      → is_bad_match e ≡ false
      → (resilient_ingest w m (some cb, s)).1.0 ≡ some (record_failure cb)
  resilient_ingest_outage m cb s e open_now answered bad =
      let (e', now, same) = guarded m cb s e open_now answered in
      now ∙ ap some (count_result_outage e' cb (same ∙ bad))

failure_closed :
    (cb : Breaker)
    → cb.state ≡ closed
    → (allow cb ≡ true)
      × (cb.failures + 1 < cb.threshold
          → ((record_failure cb).state ≡ closed)
            × ((record_failure cb).failures ≡ cb.failures + 1)
            × ((record_failure cb).threshold ≡ cb.threshold))
      × (cb.failures + 1 ≡ cb.threshold → (record_failure cb).state ≡ opened)
unfolding allow record_failure
failure_closed cb h = ground arith

abbrev pub resilient_all :
    (w : MatchWriter) → List w.Match → Option Breaker × State w → Option Breaker × State w
resilient_all w [] r = r
resilient_all w (m ∷ ms) r = resilient_all w ms (resilient_ingest w m r).1

allow_opened : (cb : Breaker) → cb.state ≡ opened → allow cb ≡ false
unfolding allow
allow_opened cb h = ground arith

-- `outage` is a database that answers every match with an error that is not about the match.
module _ (w : MatchWriter)
    (outage : (m : w.Match) (r : w.Repo)
      → (e : GoError) × ((w.ingest_match m r).0 ≡ some e) × (is_bad_match e ≡ false)) where
  outage_from :
      (m : w.Match) (ms : List w.Match) (cb : Breaker) (s : State w)
      → cb.state ≡ closed
      → cb.threshold ≡ cb.failures + length (m ∷ ms)
      → (cb' : Breaker) × ((resilient_all w (m ∷ ms) (some cb, s)).0 ≡ some cb')
        × (cb'.state ≡ opened)
  outage_from m [] cb s h e =
      let (may, _, trips) = failure_closed cb h in
      let (err, answered, bad) = outage m s.repo in
      (
        record_failure cb,
        resilient_ingest_outage w m cb s err may answered bad,
        trips (omega arith),
      )
  outage_from m (m' ∷ ms) cb s h e =
      let (may, counts, _) = failure_closed cb h in
      let (err, answered, bad) = outage m s.repo in
      let (still, more, same) = counts (omega arith) in
      let s' = (resilient_ingest w m (some cb, s)).1.1 in
      let (cb', now, is_open) = outage_from m' ms (record_failure cb) s' still (omega arith) in
      (
        cb',
        ap (λ b. (resilient_all w (m' ∷ ms) (b, s')).0)
              (resilient_ingest_outage w m cb s err may answered bad)
            ∙ now,
        is_open,
      )

  -- While the database answers every match with an error that is not about the match, as many matches
  -- as the threshold (one at least) trip a new breaker, and the next match is rejected without a call
  -- of the database.
  pub outage_trips :
      (m : w.Match) (ms : List w.Match) (s : State w)
      → (cb : Breaker) × ((resilient_all w
            (m ∷ ms)
            (some (new_circuit_breaker (length (m ∷ ms))), s)).0
          ≡ some cb)
        × (allow cb ≡ false)
        × ((next : w.Match) (s' : State w)
            → (resilient_ingest w next (some cb, s')).1 ≡ (some cb, s'))
  unfolding new_circuit_breaker resilient_ingest
  outage_trips m ms s =
      let (cb, now, is_open) =
        outage_from m ms (new_circuit_breaker (length (m ∷ ms))) s refl (omega arith) in
      (
        cb,
        now,
        allow_opened cb is_open,
        λ next s'. rw (allow_opened cb is_open, resilient_ingest) refl,
      )
