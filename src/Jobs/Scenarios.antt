-- ===== src/Jobs/Scenarios.antt =====
-- A queue with two jobs, at which the theorems apply.
use loanapp.Jobs.Operations.{cancel_job, retry_job}
use loanapp.Jobs.Termination.{process_all-bounded}
use loanapp.Jobs.Draining.{work_left}
use loanapp.Jobs.Runner.{process_all, Round}
use loanapp.Jobs.Holders.{reports_of_others}
use loanapp.Jobs.Order.{NoLater, Due, claim_next_job-earliest}
use loanapp.Jobs.Failures.{mark_failed-outcome}
use loanapp.Jobs.Queue.{
  lock_job, count_jobs, new_job, update_jobs, of_types, dead_letter, violates_unique, JobStatus,
  claimable, earliest, find_duplicate, send_notification, EnqueueParams, Queue, processing,
  assert_tenant_exists, mark_succeeded, held_by, has_id, ClaimParams, mark_failed, claim_next_job,
  find_job, enqueue_job, Job,
}
use loanapp.Jobs.Validity.{JobValid, UniqueIds, QueueValid}
use loanapp.Common.{
  arith, ok, ◌<◌, All, ◌+◌, none, refl, ◌≡◌, is_space, [], some, ◌∷◌, trim, codes, ◌≤◌, is_empty,
  true, ◌/◌, text_eq, List, max, ℕ,
}
use loanapp.Jobs.Reachable.{
  retried, cancelled, after, marked_succeeded, enqueued, empty, Reachable-QueueValid,
}

abbrev no_jitter : ℕ → ℕ
no_jitter n = 0

abbrev half_jitter : ℕ → ℕ
half_jitter n = n / 5

abbrev params : ℕ → EnqueueParams
params n = record {
  type = send_notification;
  tenant = codes "t1";
  dedupe_key = none;
  run_at = n;
  max_attempts = 2;
  backoff_ms = 2000;
}

abbrev late_job : Job
late_job = record {
  id = codes "j1";
  type = send_notification;
  tenant = codes "t1";
  dedupe_key = none;
  run_at = 9;
  created_at = 1;
  max_attempts = 2;
  backoff_ms = 2000;
  attempts = 0;
  status = JobStatus.pending;
  locked_at = none;
  locked_by = none;
  succeeded_at = none;
  failed_at = none;
  last_error = none;
}

abbrev early_job : Job
early_job = record late_job { id = codes "j2"; run_at = 4 }

abbrev held_job : Job
held_job = record early_job {
  status = processing;
  locked_at = some 10;
  locked_by = some (codes "w1");
}

abbrev queue_of : List Job → Queue
queue_of js = record { jobs = js; dlq = []; dead_letters = [] }

two-UniqueIds : UniqueIds (late_job ∷ early_job ∷ [])
unfolding text_eq
two-UniqueIds = ((refl, tt), (tt, tt))

enqueued_one :
    enqueue_job (codes "j1") 1 (codes "t1" ∷ []) (params 9) [] (queue_of [])
    ≡ ok (queue_of (late_job ∷ []), late_job)
unfolding enqueue_job assert_tenant_exists is_empty trim is_space text_eq find_duplicate
    violates_unique new_job
enqueued_one = refl

abbrev cancelled_queue : Queue
cancelled_queue =
    cancel_job 7 (codes "j1") (codes "not needed")
      (mark_succeeded 5 (codes "j1") (codes "w1") (queue_of (late_job ∷ [])))

Reachable-QueueValid_example :
    QueueValid (retry_job 8 (codes "j1") cancelled_queue.jobs cancelled_queue).0
Reachable-QueueValid_example = Reachable-QueueValid half_jitter true (codes "t1" ∷ []) (
    after
      (after
        (after
          (after empty (
            enqueued {r = queue_of (late_job ∷ [])} (codes "j1") 1 (params 9) [] late_job tt
              enqueued_one))
          (marked_succeeded 5 (codes "j1") (codes "w1")))
        (cancelled 7 (codes "j1") (codes "not needed")))
      (retried 8 (codes "j1") cancelled_queue.jobs))

held-UniqueIds : UniqueIds (late_job ∷ held_job ∷ [])
unfolding text_eq
held-UniqueIds = ((refl, tt), (tt, tt))

held_found : find_job (held_by (codes "j2") (codes "w1")) (late_job ∷ held_job ∷ []) ≡ some held_job
unfolding find_job text_eq
held_found = refl

mark_failed-outcome_example :
    let after =
      mark_failed half_jitter true 20
        (codes "j2")
        (codes "w1")
        (codes "down")
        (queue_of (late_job ∷ held_job ∷ [])) in
    (k : Job) × (find_job (has_id (codes "j2")) after.jobs ≡ some k)
    × (k.attempts ≡ 0 + 1)
    × (k.locked_by ≡ none)
    × ((2 ≤ k.attempts)
        → (k.status ≡ dead_letter)
          × (after.dead_letters ≡ (codes "t1", (codes "j2", k.attempts)) ∷ []))
    × (k.attempts < 2
        → (k.status ≡ JobStatus.pending)
          × (20 + max 100 2000 ≤ k.run_at)
          × (k.run_at ≤ 20 + max (max 100 2000) 600000)
          × (after.dead_letters ≡ []))
mark_failed-outcome_example =
    mark_failed-outcome half_jitter true 20 (codes "j2") (codes "w1") (codes "down")
      (queue_of (late_job ∷ held_job ∷ [])) {j = held_job} held-UniqueIds held_found

abbrev worker : ClaimParams
worker = record { worker_id = codes "w1"; types = []; limit = 1 }

claimed_one :
    claim_next_job 10 worker (queue_of (late_job ∷ early_job ∷ []))
    ≡ ok (queue_of (late_job ∷ held_job ∷ []), some held_job)
unfolding claim_next_job is_empty trim is_space text_eq earliest claimable of_types update_jobs
    count_jobs find_job lock_job
claimed_one = refl

claim_next_job-earliest_example :
    (j : Job) × (find_job (has_id j.id) (late_job ∷ early_job ∷ []) ≡ some j)
    × Due 10 [] j
    × All (λ x. Due 10 [] x → NoLater j x) (late_job ∷ early_job ∷ [])
    × (held_job ≡ record j {
      status = processing;
      locked_at = some 10;
      locked_by = some (trim (codes "w1"));
    })
    × (find_job (has_id held_job.id) (late_job ∷ held_job ∷ []) ≡ some held_job)
claim_next_job-earliest_example =
    claim_next_job-earliest 10 worker (queue_of (late_job ∷ early_job ∷ []))
      {r = queue_of (late_job ∷ held_job ∷ [])} {k = held_job} two-UniqueIds claimed_one

reports_of_others_example :
    (mark_failed half_jitter true 20
        (codes "j2")
        (codes "w2")
        (codes "down")
        (queue_of (late_job ∷ held_job ∷ []))
      ≡ queue_of (late_job ∷ held_job ∷ []))
    × (mark_succeeded 20 (codes "j2") (codes "w2") (queue_of (late_job ∷ held_job ∷ []))
        ≡ queue_of (late_job ∷ held_job ∷ []))
unfolding find_job text_eq
reports_of_others_example =
    reports_of_others half_jitter true 20 (codes "j2") (codes "w1") (codes "w2") (codes "down")
      (queue_of (late_job ∷ held_job ∷ [])) {k = held_job} held-UniqueIds refl refl refl

late_job-JobValid : JobValid late_job
late_job-JobValid = (refl, λ _. omega arith, omega arith)

abbrev two_rounds : List Round
two_rounds =
    record { claims_at = 10; reports_at = 11; handler = λ _. some (codes "down") }
    ∷ record { claims_at = 999999; reports_at = 999999; handler = λ _. none }
    ∷ []

process_all-bounded_example :
    (q' : Queue) × (n : ℕ) × (process_all half_jitter true
        (codes "w1")
        two_rounds
        (queue_of (late_job ∷ []))
      ≡ ok (q', n))
    × (n + work_left q'.jobs ≤ work_left (late_job ∷ []))
unfolding trim is_space is_empty
process_all-bounded_example =
    process_all-bounded half_jitter true (codes "w1") two_rounds (queue_of (late_job ∷ [])) refl
      refl ((late_job-JobValid, tt), (tt, tt))
