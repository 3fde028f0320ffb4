-- ===== src/Examples.antt =====
-- A scripted system, and each theorem at one run of it.
mod Script
mod Modes
mod Children
mod Services
mod Supervision
mod Machines
mod Viewing
mod Serving
