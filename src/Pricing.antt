-- ===== src/Pricing.antt =====
-- backend/app/services/pricing: from retrieved products to a price.
pub mod Comparable
pub mod Filter
pub mod FilterLaws
pub mod Normalize
pub mod Estimate
pub mod EstimateLaws
pub mod Engine
mod Examples
