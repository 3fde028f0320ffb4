-- ===== src/Hsv.antt =====
-- [ENG]/hsv.c: the program that supervises one service.
pub mod Control
pub mod Stop
pub mod Supervise
