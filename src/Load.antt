-- ===== src/Load.antt =====
-- [ENG]/load.c: the services and their supervisors (HSV).
pub mod Table
pub mod Services
pub mod Boot
