-- ===== src/Filter.antt =====
-- Subscription filters (src/worker/subscriptions/filter.ts).
pub mod Ast
pub mod Escape
pub mod Parser
pub mod Nfa
pub mod Simulation
pub mod Matching
pub mod Rules
mod Tests
