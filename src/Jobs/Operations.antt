-- ===== src/Jobs/Operations.antt =====
-- What administrators do to jobs: `releaseClaim`, `retryJob` and `cancelJob` of
-- apps/api/src/common/jobs/jobs.service.ts, and `moveToDlq` of
-- apps/api/src/jobs/job-outbox.service.ts. `retryJob` of
-- apps/api/src/modules/admin-ops/admin-ops.service.ts writes what `retry_job` does, and throws where
-- that returns the job as it is.
use loanapp.Jobs.Queue.{
  is_processing, failed, has_id, update_jobs, find_job, dead_letter, Queue, pending, JobStatus, Job,
}
use loanapp.Common.{
  List, ◌∷◌, ◌&&◌, if◌then◌else◌, false, take, true, none, Option, some, Bool, Text, ℕ,
}

unfoldable pub unlock_job : Job → Job
unlock_job j = record j { status = pending; locked_at = none; locked_by = none }

-- `releaseClaim`
unfoldable pub release_claim : Text → Queue → Queue
release_claim id q = record q {
  jobs = update_jobs (λ j. has_id id j && is_processing j.status) unlock_job q.jobs;
}

abbrev pub is_stopped : JobStatus → Bool
is_stopped failed = true
is_stopped dead_letter = true
is_stopped _ = false

unfoldable pub restart : ℕ → Job → Job
restart now j = record j {
  status = pending;
  run_at = now;
  locked_at = none;
  locked_by = none;
  failed_at = none;
  last_error = none;
  attempts = 0;
}

-- `retryJob`. The lookup and the update are two statements: `seen` are the jobs at the first, the
-- queue is the one at the second. A job that has not stopped is returned as it is.
unfoldable pub retry_job : ℕ → Text → List Job → Queue → Queue × Option Job
retry_job now id seen q = elim (find_job (has_id id) seen) [
  | none ↦ (q, none)
  | some j ↦
      if is_stopped j.status
      then (let jobs = update_jobs (has_id id) (restart now) q.jobs in
          (record q { jobs = jobs }, find_job (has_id id) jobs))
      else (q, some j)
]

unfoldable pub cancel : ℕ → Text → Job → Job
cancel now reason j = record j {
  status = dead_letter;
  failed_at = some now;
  last_error = some (take 2000 reason);
  locked_at = none;
  locked_by = none;
}

-- `cancelJob`
unfoldable pub cancel_job : ℕ → Text → Text → Queue → Queue
cancel_job now id reason q = elim (find_job (has_id id) q.jobs) [
  | none ↦ q
  | some j ↦ record q {
    jobs = update_jobs (has_id j.id) (cancel now reason) q.jobs;
    dlq =
        record {
          tenant = j.tenant;
          job_id = j.id;
          type = j.type;
          attempts = j.attempts;
          last_error = take 2000 reason;
          failed_at = now;
        }
        ∷ q.dlq;
  }
]

-- The second call of `moveToDlq`.
unfoldable pub set_dead_letter : Text → Queue → Queue
set_dead_letter id q = record q {
  jobs = update_jobs (has_id id) (λ j. record j { status = dead_letter }) q.jobs;
}

-- `moveToDlq`
unfoldable pub move_to_dlq : ℕ → Text → Text → Queue → Queue
move_to_dlq now id reason q = set_dead_letter id (cancel_job now id reason q)
