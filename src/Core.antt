-- ===== src/Core.antt =====
-- core_src, the wrappers of the operating system that every part of the program goes through.
pub mod Channels
pub mod Children
mod Tests
