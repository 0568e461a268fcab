-- ===== src/Draft.antt =====
-- Captain's Mode drafts, in the two modules that interpret them:
-- go-ingestion/internal/worker/parser/decode_draft.go (validation, eras, phase numbers) and
-- go-analysis/internal/domain/{phase_table,draft}.go (phase tables, the state of a draft).
pub mod Patterns
pub mod Phases
pub mod State
