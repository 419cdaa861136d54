-- ===== src/Routing.antt =====
-- pkg/routing: agent and account ids, session keys, the route cascade, model routing.
pub mod AgentId
pub mod SessionKey
pub mod Route
pub mod Features
pub mod Classifier
pub mod Router
mod Tests
