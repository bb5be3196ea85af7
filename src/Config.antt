-- ===== src/Config.antt =====
-- src/config: the configuration of a repository, and the client that it selects.
pub mod Repo
pub mod Runners
