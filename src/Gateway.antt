-- ===== src/Gateway.antt =====
-- The governed call of a tool: internal/server/mcpgw and internal/a2a/dispatch.
pub mod Protocol
pub mod A2a
pub mod Pipeline
pub mod Evaluate
pub mod Bridge
pub mod Dispatcher
pub mod Outgoing
pub mod Bridged
mod Tests
pub mod Session
pub mod Listing
pub mod ListChanged
pub mod Binder
pub mod Pool
