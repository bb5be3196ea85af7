-- ===== src/Github.antt =====
-- src/github: what is read from GitHub and published to it.
pub mod Change
pub mod Commands
pub mod Publish
pub mod Git
pub mod Diff
