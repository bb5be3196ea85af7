-- ===== src/Worker.antt =====
-- src/apps/worker: a review from the queue to its comment.
pub mod Outcome
pub mod Loop
pub mod Gate
pub mod Policy
pub mod DiffBudget
pub mod Input
pub mod Workspace
pub mod Install
pub mod Review
pub mod Pipeline
