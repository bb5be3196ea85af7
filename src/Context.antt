-- ===== src/Context.antt =====
-- src/context: the routing of a change to the parts of the context pack.
pub mod Glob
pub mod Pack
pub mod Routing
pub mod Assess
pub mod Onboarding
