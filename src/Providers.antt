-- ===== src/Providers.antt =====
-- pkg/providers: messages, failover errors, cooldowns and the fallback chain.
pub mod Message
pub mod Failover
pub mod Cooldown
pub mod ErrorClassifier
pub mod ModelRef
pub mod Candidates
pub mod Fallback
mod Tests
