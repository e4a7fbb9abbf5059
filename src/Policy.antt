-- ===== src/Policy.antt =====
-- internal/policy: the authorisation core. Glob is the pattern lists, Risk is riskclass.go, Skills is
-- the owning skill and its enablement, and Engine is `EvaluateToolCall`.
pub mod Glob
pub mod Risk
pub mod Skills
pub mod Engine
mod Tests
