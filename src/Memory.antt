-- ===== src/Memory.antt =====
-- pkg/memory: sessions as append-only files, and an encoding for the runs.
pub mod Disk
pub mod Store
pub mod Interface
pub mod Lines
pub mod Torn
mod Format
pub mod Refinement
