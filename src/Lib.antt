-- ===== src/Lib.antt =====
-- previewer reviews GitHub pull requests: a webhook and a periodic sweep put heads into a durable
-- queue, a worker leases them, runs one AI reviewer for each and publishes one comment, and a table of
-- runs keeps two workers off one head. This library models the parts that decide what is reviewed,
-- how often and by whom, and proves what each of them promises.
--
-- The parts and their files:
-- - Store/Queue: src/store/sqlite-queue.ts. The table `jobs` is the list of its rows; `enqueue`, `lease`,
--   `ack`, `nack`, `nack_transient`, `next_visible_at` are the methods, and Store/Queue/Calls a history
--   of them. The children hold the invariant, the life cycle of a job, who holds a lease, how a job is
--   settled, the wake-up time and the back-off.
-- - Store/Reviews: the table `review_runs` of src/store/sqlite-store.ts: `claim_review`,
--   `release_claim`, `record_run` and what is read from them. Store/Deliveries: the table `deliveries`.
-- - Worker/Loop: src/apps/worker/loop.ts, the drain and the settling of a job by the class of its failure
--   (Core/Failure and Core/FailurePatterns: src/core/retry-classification.ts; Core/LimitError: src/core/limit-error.ts).
-- - Worker/Pipeline, with Worker/Review, Worker/Input and Worker/Outcome: `reviewPipeline` of
--   src/apps/worker/pipeline.ts, from the pull request to the recorded run.
-- - Worker/Gate, Worker/Policy and Worker/DiffBudget: src/apps/worker/gate.ts, policy.ts and
--   diff-budget.ts. Config/Repo and Config/Runners: src/config/schema and src/config/runner-profiles.ts.
-- - Context/Glob: the glob matcher of src/context/routing.ts, over Core/Regex. Context/Routing: its
--   `resolveContext`, the profiles, documents, tests, subsystems and invariants that a change selects.
-- - Context/Pack, Context/Assess and Context/Onboarding: src/context/pack.ts (`load_pack`),
--   src/context/assess.ts (the plan for each part of a pack) and src/context/onboarding.ts (the
--   builders, the gate of confirmation, the reconciliation and the run).
-- - Runners: src/runners. Runners/Streams, Events, Json and Results are src/runners/shared/output.ts,
--   Runners/Executor, Claude, Codex, Onboard, Bundle and Neighbors the files of src/runners/cli (the last
--   two are workspace-context.ts); Runners/Delivery joins their results to the end of the pipeline.
-- - Dashboard: src/apps/dashboard/queries.ts and error-kind.ts, the status that is read from the tables.
-- - Github/Commands and Github/Publish: src/github/webhook.ts and src/github/publish.ts.
--   Github/Git and Github/Diff: src/github/git.ts and worktree.ts. Worker/Workspace: the two providers of
--   src/apps/worker/workspace.ts. Worker/Install: src/apps/worker/install.ts.
-- - Ingress/Webhook: src/apps/ingress/server.ts. Ingress/Drainer: the flags and the timer of
--   src/apps/ingress/main.ts, as steps of the callbacks. Reconciler: src/apps/reconciler/reconcile.ts.
--
-- How they interact: `handle_webhook` and `reconcile` call `enqueue`; `drain_queue` calls `lease` and
-- settles what `review_pipeline` returns or throws; `review_pipeline` claims, records and releases in
-- the table of the runs, which `reconcile` reads to find the heads that are not covered. A review is
-- made in a checkout of `prepare_cache` or `prepare_local`, by `claude_review` or `codex_review`, whose
-- result `finish_review` publishes and records; `build_status` reads both tables.
--
-- What stands for what: a time is a number of milliseconds, as the texts that `iso` prints order like
-- the numbers; a random UUID is the number that it writes, drawn as an argument, and theorems that need
-- a fresh one say so. A statement of the database is one step, as each method runs in one transaction of
-- one connection. Texts that are searched are lists of their UTF-16 units. Numbers stay far below 2^53,
-- where the language's are exact. What GitHub, git, the context pack, the installer, the runners and the
-- verifier of signatures answer is an argument: a value, or what is thrown; in the checkouts, git and the
-- file system are calls that change a state. `JSON.parse` and the schemas of zod are arguments too.
-- GitHub's comments, and the file system under a clone, are interfaces with the laws of their calls.
--
-- Bounds: every loop is a recursion over a list. The drain has no list of its own, so it runs over the
-- rounds that the environment offers and answers nothing if they end first; more rounds than jobs are
-- ready are enough. The attempts of a reviewer count down from their limit.
--
-- Not modelled: the HTTP servers and process set-up, the command line, the page of the dashboard and its
-- probes of the system, the composition, spawning a program, the adapters that call the network, the
-- scans of the file system, the prompts but for what `codex.ts` puts around one, log texts, the defaults
-- that zod fills in, and a failure of the database itself. The pipeline takes the resolved context as an
-- argument, since the provider reads the pack from the disk.
pub mod Prelude
pub mod Core
pub mod Config
pub mod Context
pub mod Github
pub mod Store
pub mod Worker
pub mod Ingress
pub mod Reconciler
pub mod Dashboard
pub mod Runners
pub mod Tests
