-- ===== src/Logger.antt =====
-- [LOG]/logger.c: the viewer of the log file.
pub mod Lines
pub mod Terminal
pub mod Keys
pub mod Session
