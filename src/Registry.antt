-- ===== src/Registry.antt =====
-- backend/app/services/model_registry.py: which version of each AI model is in use.
pub mod Models
pub mod Laws
mod Examples
