-- ===== src/Ingester/Kinds.antt =====
-- The classifications of a database error: `IsRetryable` and `IsValidation` of errors.go against
-- `classify` of ingester.go, in go-ingestion/internal/worker/ingester.
use dota2_analysis.Base.{◌≡◌, ◌⊎◌, ◌↔◌, true, false, some, arith}
use dota2_analysis.Ingester.{
  GoError, classify_db_error, has_code, is_retryable, is_validation, is_ctx_error, kind_validate,
  kind_db, kind_timeout, kind_of, classify,
}

-- Apart from errors of the context, the errors that `IsValidation` accepts are those that `classify`
-- reports as validation failures.
pub is_validation-classify :
    (e : GoError)
    → is_ctx_error e ≡ false
    → (is_validation (some e) ≡ true) ↔ (classify (some e) ≡ kind_validate)
unfolding is_validation classify classify_db_error kind_of
is_validation-classify e h = ground arith

-- Apart from errors of the context, an error that `IsRetryable` accepts is reported as a failure of
-- the database or a timeout, and is no validation error.
pub is_retryable-classify :
    (e : GoError)
    → is_ctx_error e ≡ false
    → is_retryable (some e) ≡ true
    → ((classify (some e) ≡ kind_db) ⊎ (classify (some e) ≡ kind_timeout))
      × (is_validation (some e) ≡ false)
unfolding is_retryable is_validation classify classify_db_error kind_of has_code
is_retryable-classify e h r = ground arith
