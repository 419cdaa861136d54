-- ===== src/Media.antt =====
-- pkg/media: the files of a conversation.
pub mod Store
mod Tests
