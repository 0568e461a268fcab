-- ===== src/Handlers/Verdict.antt =====
-- What a subscriber makes of an error that has passed the ErrorTranslator.
use dota2_analysis.Base.{◌≡◌, refl, Bool, ◌||◌, inl, inr, none, some, if◌then◌else◌, Bool-cases}
use dota2_analysis.Handlers.{HandlerError, err_drop, is_drop, is_json, translate, outcome_of}
use dota2_analysis.Queue.{Outcome, handled, dropped, failed}

abbrev pub is_final : HandlerError → Bool
is_final e = is_drop e || is_json e

abbrev pub verdict : (e : HandlerError) → Outcome
verdict e = if is_final e then dropped else failed

pub outcome_of-translate : (e : HandlerError) → outcome_of (translate (some e)) ≡ verdict e
unfolding outcome_of translate is_drop
outcome_of-translate e = elim (Bool-cases (is_drop e)) [
  | inl d ↦ rw (d, translate) (rw (d, outcome_of) refl)
  | inr d ↦ elim (Bool-cases (is_json e)) [
    | inl j ↦ rw (d, translate) (rw (j, translate) refl)
    | inr j ↦ rw (d, translate) (rw (j, translate) (rw (d, outcome_of) refl))
  ]
]

pub err_drop-dropped : outcome_of (translate (some err_drop)) ≡ dropped
unfolding outcome_of translate is_drop
err_drop-dropped = refl

pub none-handled : outcome_of (translate none) ≡ handled
unfolding outcome_of translate
none-handled = refl
