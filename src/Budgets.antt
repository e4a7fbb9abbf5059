-- ===== src/Budgets.antt =====
-- internal/budgets: the windows (Window is window.go) and the enforcement of a hierarchy of budgets
-- (Enforcer is enforcer.go).
pub mod Window
pub mod Enforcer
mod Tests
