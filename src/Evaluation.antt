-- ===== src/Evaluation.antt =====
-- backend/app/services/evaluation: measuring search, recommendation and duplicate detection.
pub mod Metrics
pub mod MetricsLaws
pub mod Evaluator
pub mod Aggregate
pub mod AggregateLaws
pub mod Totality
mod Examples
