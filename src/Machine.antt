-- ===== src/Machine.antt =====
-- [SYSLOAD] and [MD]: the preparation of the machine, its shutdown, and the programs of the modes.
pub mod Exec
pub mod Startup
pub mod Shutdown
