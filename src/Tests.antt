-- ===== src/Tests.antt =====
-- Examples: concrete runs of the models, and the theorems applied to them.
pub mod SuppressionTests
pub mod AcknowledgementTests
pub mod IngestionTests
pub mod DiagnosticsTests
pub mod QueueTests
pub mod EvidenceTests
pub mod FlushTests
pub mod SystemTests
pub mod ConfigTests
pub mod ProcessTests
pub mod FinalizeTests
pub mod GraphTests
pub mod OwnershipTests
pub mod Fixtures
pub mod TriggerTests
pub mod RedactionTests
pub mod CanonicalTests
pub mod RelayTests
