-- ===== src/Rollout.antt =====
-- `template/scripts/rollout_identity.py`, `scripts/rollout_supersession.py` and
-- `scripts/rollout_failure_streak.py`: the pull requests of a managed rollout and its failures.
pub mod Version
pub mod Identity
pub mod Supersession
pub mod Block
pub mod Streak
