-- ===== src/Agent.antt =====
-- pkg/agent: what is sent to a provider of a conversation, and how it is made to fit.
pub mod History
pub mod Messages
pub mod Float
pub mod Budget
pub mod Dispatch
pub mod Summary
mod Tests
