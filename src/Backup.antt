-- ===== src/Backup.antt =====
-- The two earlier programs, backup/Hopa.c and backup/main.c.
pub mod Probe
pub mod Forward
pub mod Count
pub mod Start
mod Examples
