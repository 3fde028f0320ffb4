-- ===== src/Md.antt =====
-- [MD]: the programs that the mode controller runs.
pub mod Md0
pub mod Md1
pub mod Md2
