-- ===== src/MachinePool.antt =====
-- `template/scripts/machine_pool.py`: a counting pool of lock files that heavy runs on one machine share.
pub mod Slots
pub mod Queue
pub mod Acquire
