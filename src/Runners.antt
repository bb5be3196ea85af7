-- ===== src/Runners.antt =====
-- src/runners: what the command-line reviewers are called with, and what is read from their output.
pub mod Streams
pub mod Events
pub mod Json
pub mod Results
pub mod Executor
pub mod Claude
pub mod Codex
pub mod Onboard
pub mod Neighbors
pub mod Bundle
pub mod Adapters
pub mod Delivery
