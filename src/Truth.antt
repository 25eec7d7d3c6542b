-- ===== src/Truth.antt =====
-- packages/truth-ledger/src: claims, their evidence and the accepted facts.
pub mod Validation
pub mod Confidence
pub mod SourceSpan
pub mod Timestamp
pub mod PredicateRegistry
pub mod AcceptedFact
mod Tests
