-- ===== src/Recommendation.antt =====
-- backend/app/services/recommendation: recommendations for a stored product.
pub mod Diversify
pub mod DiversifyLaws
pub mod DiversifyCount
pub mod Scorer
pub mod ScorerLaws
pub mod Engine
mod Examples
