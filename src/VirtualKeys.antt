-- ===== src/VirtualKeys.antt =====
-- internal/auth/virtual_keys: the token (Token), the rows that the keys are kept in (Store), their
-- lifecycle (Service) and the caching resolver (Resolver). HMAC-SHA256, SHA-256 and the random
-- generator are parameters.
pub mod Token
pub mod Store
pub mod Service
pub mod Resolver
mod Tests
