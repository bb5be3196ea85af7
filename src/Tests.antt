-- ===== src/Tests.antt =====
-- The theorems at concrete inputs, and runs of the definitions.
mod Data
mod Queue
mod Reviews
mod Worker
mod Pipeline
mod Requests
mod Drainer
mod Routing
mod Onboarding
mod Dashboard
mod Runners
mod Workspace
mod Bundle
