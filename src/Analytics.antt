-- ===== src/Analytics.antt =====
-- The analytics of the service: daily counters, and the figures made from them.
pub mod Repository
pub mod Engine
pub mod Windows
mod Examples
