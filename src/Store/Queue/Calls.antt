-- ===== src/Store/Queue/Calls.antt =====
-- The calls of the queue as data: a history of the queue is a list of calls.
use previewer.Prelude.{ℕ, ◌≡◌, Bool, Option, List, [], ◌∷◌, count_where}
use previewer.Core.State.{Job}
use previewer.Store.Queue.{
  Jobs, QueueOptions, has_id, holds_lease, enqueue, lease, ack, nack, nack_transient,
}

-- Each call with the time at which it runs and the UUID that it draws.
pub data Call : Type 0 where
  enqueues : ℕ → Bool → Job → Call
  leases : ℕ → ℕ → ℕ → Call
  acks : ℕ → Call
  nacks : ℕ → Option ℕ → ℕ → ℕ → Call
  nacks_transient : ℕ → ℕ → Call

unfoldable pub step : QueueOptions → Jobs → Call → Jobs
step opts jobs (enqueues now force job) = (enqueue now force job jobs).0
step opts jobs (leases uuid now timeout) = (lease uuid now timeout jobs).0
step opts jobs (acks l) = ack l jobs
step opts jobs (nacks now override l retry_in) = nack opts now override l retry_in jobs
step opts jobs (nacks_transient now l) = nack_transient opts now l jobs

unfoldable pub run : QueueOptions → Jobs → List Call → Jobs
unfolding step
run opts jobs [] = jobs
run opts jobs (c ∷ cs) = run opts (step opts jobs c) cs

-- A UUID that a call draws is in no row.
abbrev pub Fresh : Call → Jobs → Type 0
Fresh (enqueues _ _ job) jobs = count_where (has_id job.id) jobs ≡ 0
Fresh (leases uuid _ _) jobs = count_where (holds_lease uuid) jobs ≡ 0
Fresh _ jobs = Unit {0}

abbrev pub AllFresh : QueueOptions → Jobs → List Call → Type 0
AllFresh opts jobs [] = Unit {0}
AllFresh opts jobs (c ∷ cs) = Fresh c jobs × AllFresh opts (step opts jobs c) cs
