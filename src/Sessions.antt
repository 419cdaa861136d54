-- ===== src/Sessions.antt =====
-- pkg/session: the sessions of the program, in memory and in files.
pub mod Manager
pub mod Spec
pub mod Backend
pub mod Agreement
pub mod Files
mod Tests
