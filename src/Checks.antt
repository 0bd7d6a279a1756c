-- ===== src/Checks.antt =====
-- `template/scripts/select_checks.py`: the checks that a set of changed paths selects.
pub mod Config
pub mod Select
pub mod LeftToCi
pub mod Status
