-- ===== src/Lib.antt =====
-- A model of the backend of the product intelligence service, and its correctness.
--
-- The parts, and the files that model them:
-- - Queue: backend/app/queue/redis_queue.py and backend/app/jobs. A queue of jobs on a Redis server:
--   a pending list, a processing hash, a delayed sorted set, a dead-letter list, the records of the
--   jobs and an index by product. Queue/Redis is what the code asks of the server, Queue/RedisQueue
--   the methods as sequences of commands, Queue/Transitions what they promise, Queue/Refinement that
--   they keep the promise. Queue/Placement, Recovery, Lifecycle, Retry, Fifo and Crash are about
--   jobs over many calls; Queue/Memory is a server that shows that the assumptions can be met.
-- - Worker: backend/app/workers/product_worker.py, which takes a job, processes it, and completes it
--   or hands it back to the queue. Worker/Rounds is the code, Worker/Settled and Worker/Outcomes are
--   what a round does.
-- - Search: backend/app/services/vectorstore/hybrid_search_service.py in Search/Fusion and
--   Search/Hybrid, and backend/app/services/reranker_service.py in Search/Rerank; Search/Reranking
--   shows that the latter may stand behind the former.
-- - Recommendation: backend/app/services/recommendation. Scorer scores one candidate, Diversify goes
--   round the brands, Engine composes them with the search.
-- - Pricing: backend/app/services/pricing. Pricing/Normalize turns search results into comparables,
--   Pricing/Filter drops the irrelevant, Pricing/Estimate makes a price of the rest, and
--   Pricing/Engine composes them.
-- - Duplicate: backend/app/services/duplicate. Duplicate/Similarity scores a candidate,
--   Duplicate/Decision decides on the best, Duplicate/Detection retrieves and reranks the candidates;
--   Duplicate/Rules are the business rules, and Duplicate/Verification the verdict by cross-encoder and
--   rules, with the check that chooses between the two ways.
-- - Enterprise: backend/app/models/role.py (Role), repositories/api_key_repository.py and
--   services/enterprise/api_keys.py (Keys), services/enterprise/authentication_service.py,
--   dependencies/enterprise.py and api/enterprise.py (Auth), repositories/organization_repository.py and
--   services/enterprise/tenant_scope.py (Accounts), repositories/quota_repository.py (Limits) and
--   repositories/audit_repository.py (Audit). Enterprise/Redis is what they ask of the server, and
--   Enterprise/Memory a server that shows that the assumptions can be met. KeySpace and AuthLaws are
--   about the stored keys, Revocation about sequences of requests, Routes about who may issue and
--   revoke, LimitsLaws and AuditLaws about the counters and the log.
-- - Registry: backend/app/services/model_registry.py, the versions of the models and which are active.
-- - Evaluation: backend/app/services/evaluation/retrieval_evaluator.py. Metrics are the measures of one
--   result list, Evaluator asks Search, Recommendation or Duplicate for the list, Aggregate makes the
--   report.
-- - Analytics: backend/app/repositories/analytics_repository.py and services/analytics/
--   analytics_engine.py, the daily counters and the figures and trends made from them.
-- - Text: backend/app/utils/facets.py and text.py, the keys of facets and the texts for models.
-- - Float: the operations of Python's float, a parameter. Its comparisons are taken to obey the
--   named laws of Float/Interface, which admit NaN; Float/Fixed is an instance to run examples with.
--
-- Conventions. UUIDs and timestamps are numbers; the readings of the clock are arguments. A method
-- that mutates a job returns it. A Redis command is atomic, and interleavings are sequences of whole
-- calls (Queue/Lifecycle) or of commands up to a crash (Queue/Crash). Loops go through lists; only the
-- rounds of `_diversify` have fuel, one more than there are candidates, which is proved enough.
--
-- Not modelled: log lines, metrics and traces; messages for people, where a code or a flag beside
-- them is modelled; the JSON of a job, which stands for the record; the HTTP interface but for the
-- routes of API keys and organizations, the settings, the models behind embeddings and reranking, the
-- vector store and image files; the catalog intelligence and the explanations; the differences that
-- compare_reranking takes between its two reports; failures of Redis in the enterprise layer, which
-- lets them through.
pub mod Base
pub mod Float
pub mod Text
pub mod Search
pub mod Pricing
pub mod Duplicate
pub mod Recommendation
pub mod Queue
pub mod Worker
pub mod Enterprise
pub mod Registry
pub mod Evaluation
pub mod Analytics
pub mod Catalog
