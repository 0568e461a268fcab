-- ===== src/Handlers.antt =====
-- go-ingestion/internal/queue/middleware.go over the handlers and the publisher of
-- go-ingestion/internal/queue/queue.go.
pub mod Verdict
use dota2_analysis.Base.{ℕ, Bool, true, false, List, [], ◌∷◌, Option, none, some, if◌then◌else◌}
use dota2_analysis.Base.Text.{Text}
use dota2_analysis.Queue.{Message, Outcome, handled, dropped, failed}

-- The interface `Publisher`; false is an error.
pub record Publisher : Type 1 where
  pub Q : Type 0
  pub publish : Message → Q → Bool × Q

-- An error of a handler and what it wraps, as far as `errors.Is` and `errors.As` tell errors apart.
pub data HandlerError : Type 0 where
  err_drop json_syntax json_type deadline_exceeded : HandlerError
  permanent_http : (status : ℕ) → HandlerError
  other : Text → HandlerError
  wrapped : HandlerError → HandlerError

abbrev pub Handler : Type 0 → Type 0
Handler W = Message → W → Option HandlerError × W

abbrev pub Middleware : Type 0 → Type 0
Middleware W = Handler W → Handler W

-- `errors.Is(err, ErrDrop)`
unfoldable pub is_drop : HandlerError → Bool
is_drop err_drop = true
is_drop (wrapped e) = is_drop e
is_drop _ = false

-- `errors.As` of one of the two errors of a JSON decoder.
unfoldable pub is_json : HandlerError → Bool
is_json json_syntax = true
is_json json_type = true
is_json (wrapped e) = is_json e
is_json _ = false

-- `Chain`: the first middleware is the outermost.
unfoldable pub chain : {W : Type 0} → Handler W → List (Middleware W) → Handler W
chain h [] = h
chain h (m ∷ mws) = m (chain h mws)

unfoldable pub translate : Option HandlerError → Option HandlerError
unfolding is_drop is_json
translate none = none
translate (some e) = if is_drop e then some e else if is_json e then some err_drop else some e

unfoldable pub error_translator : {W : Type 0} → Middleware W
unfolding translate
error_translator next msg w = let (e, w') = next msg w in (translate e, w')

-- What the subscribers of both queues make of the result of a handler.
unfoldable pub outcome_of : Option HandlerError → Outcome
unfolding is_drop
outcome_of none = handled
outcome_of (some e) = if is_drop e then dropped else failed
