-- ===== src/Jobs/Runner.antt =====
-- The runner of apps/api/src/common/jobs/jobs-runner.service.ts: `runLoop`, which calls
-- `processOnce` again and again, for any number of calls. `processOnce` of
-- apps/api/src/jobs/job-runner.service.ts makes the same calls of the queue. The handler is a
-- parameter, as what it throws on a job, if it throws; times and the chance in the backoff are too.
-- What else the handlers do is not the queue's.
use loanapp.Jobs.Queue.{mark_failed, claim_next_job, mark_succeeded, Queue, Job}
use loanapp.Common.{
  true, false, [], ◌+◌, if◌then◌else◌, some, ◌∷◌, ◌>>=◌, none, Result, List, Text, Option, Bool, ℕ,
  ok,
}

-- A call of `processOnce`: its times of claiming and of reporting, and the handler.
pub record Round : Type 0 where
  pub claims_at : ℕ
  pub reports_at : ℕ
  pub handler : Job → Option Text

module _ (jitter : ℕ → ℕ) (dlq_enabled : Bool) (worker : Text) where
  unfoldable pub report : Round → Job → Queue → Queue
  report r j q = elim (r.handler j) [
    | none ↦ mark_succeeded r.reports_at j.id worker q
    | some e ↦ mark_failed jitter dlq_enabled r.reports_at j.id worker e q
  ]

  -- `processOnce`, which tells whether it has run a job.
  unfoldable pub process_once : Round → Queue → Result (Queue × Bool)
  process_once r q = do
    claimed ← claim_next_job r.claims_at (record { worker_id = worker; types = []; limit = 1 }) q
    ok (elim claimed.1 [ none ↦ (claimed.0, false) | some j ↦ (report r j claimed.0, true) ])

  -- Calls that follow each other, and how many of them have run a job.
  unfoldable pub process_all : List Round → Queue → Result (Queue × ℕ)
  process_all [] q = ok (q, 0)
  process_all (r ∷ rs) q = do
    one ← process_once r q
    rest ← process_all rs one.0
    ok (rest.0, if one.1 then rest.1 + 1 else rest.1)
