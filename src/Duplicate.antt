-- ===== src/Duplicate.antt =====
-- backend/app/services/duplicate: is a product already in the catalog?
pub mod Models
pub mod Similarity
pub mod Decision
pub mod DecisionLaws
pub mod Detection
pub mod DetectionLaws
pub mod Rules
pub mod RulesLaws
pub mod Verification
pub mod VerificationLaws
mod Examples
mod ServiceExamples
