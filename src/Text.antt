-- ===== src/Text.antt =====
-- Python's str and what the services do with text: backend/app/utils/text.py and facets.py.
pub mod Strings
pub mod Metadata
pub mod Facet
pub mod FacetLaws
pub mod Represent
mod Examples
