-- ===== src/Core.antt =====
-- core/: byte-level reading and writing, the stream buffer, and masks of machine words.
pub mod Serialize
pub mod StreamBuf
pub mod Bits
