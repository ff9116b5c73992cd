-- ===== src/Catalog.antt =====
-- backend/app/services/catalog: attributes and tags of a product out of its text and its image.
pub mod Merge
pub mod MergeLaws
