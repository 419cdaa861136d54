-- ===== src/Channels.antt =====
-- pkg/channels: how an answer is cut into messages.
pub mod Split
mod Tests
