-- ===== src/Search.antt =====
-- backend/app/services/vectorstore and the reranker: hybrid search over two vector indexes.
pub mod Results
pub mod Fusion
pub mod FusionLaws
pub mod Rerank
pub mod RerankLaws
pub mod Hybrid
pub mod HybridLaws
pub mod Reranking
pub mod ByProduct
mod Examples
