-- ===== src/Api.antt =====
-- The HTTP interface of src/cf_knowledge_kiln/api.
pub mod RateLimit
pub mod HeaderSanitize
pub mod Idempotency
pub mod Auth
