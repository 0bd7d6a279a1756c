-- ===== src/Publication.antt =====
-- `template/scripts/publication_state.py`: what GitHub's answers say of a task's pull request.
pub mod Required
pub mod ExactHead
pub mod Observation
