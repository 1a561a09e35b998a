-- ===== src/Jobs/Queue.antt =====
-- `JobQueueService`, in apps/api/src/common/jobs/job-queue.service.ts. Times are milliseconds; a
-- method is a function of the table, which it takes and returns, as one transaction. The payload of
-- a job, which the queue passes through, is left out.
use loanapp.Common.{
  keep, invalid_tenant_id, worker_id_required, tenant_id_required, trim, ◌-◌, unique_violation, err,
  ◌^◌, not, ok, guard, [], is_empty, ◌*◌, ◌==◌, ◌>>◌, some_of, ◌||◌, min, if◌then◌else◌, take, none,
  false, some, ◌∷◌, Result, text_eq, true, leb, ◌&&◌, ◌+◌, ltb, max, Option, ℕ, List, Bool, Text,
}

-- `JobStatus`
pub data JobStatus : Type 0 where
  pending processing succeeded failed dead_letter : JobStatus

pub data JobType : Type 0 where
  accrue_interest recalc_balances send_notification collections_escalation : JobType
  risk_reevaluation ledger_reconcile integrity_scan process_webhook_event mandate_debit : JobType

unfoldable pub type_index : JobType → ℕ
type_index accrue_interest = 0
type_index recalc_balances = 1
type_index send_notification = 2
type_index collections_escalation = 3
type_index risk_reevaluation = 4
type_index ledger_reconcile = 5
type_index integrity_scan = 6
type_index process_webhook_event = 7
type_index mandate_debit = 8

pub record Job : Type 0 where
  pub id : Text
  pub type : JobType
  pub tenant : Text
  pub dedupe_key : Option Text
  pub run_at : ℕ
  pub created_at : ℕ
  pub max_attempts : ℕ
  pub backoff_ms : ℕ
  pub attempts : ℕ
  pub status : JobStatus
  pub locked_at : Option ℕ
  pub locked_by : Option Text
  pub succeeded_at : Option ℕ
  pub failed_at : Option ℕ
  pub last_error : Option Text

-- A row of `JobDlq`.
pub record DlqRow : Type 0 where
  pub tenant : Text
  pub job_id : Text
  pub type : JobType
  pub attempts : ℕ
  pub last_error : Text
  pub failed_at : ℕ

-- The tables, and the audit log's `JOB_DEAD_LETTER` events: tenant, job and attempts of each.
pub record Queue : Type 0 where
  pub jobs : List Job
  pub dlq : List DlqRow
  pub dead_letters : List (Text × (Text × ℕ))

-- `calculateBackoffMs`, for the floor of the jitter, which depends on the chance drawn.
unfoldable pub calculate_backoff_ms : (ℕ → ℕ) → ℕ → ℕ → ℕ → ℕ
calculate_backoff_ms jitter attempts base_ms cap_ms =
    let base = max 100 base_ms in
    let cap = max base cap_ms in
    let core = min cap (base * 2 ^ (attempts - 1)) in min cap (core + jitter core)

abbrev pub is_pending : JobStatus → Bool
is_pending pending = true
is_pending _ = false

abbrev pub is_processing : JobStatus → Bool
is_processing processing = true
is_processing _ = false

abbrev pub locked_by_worker : Option Text → Text → Bool
locked_by_worker none w = false
locked_by_worker (some v) w = text_eq v w

-- `updateMany({ where, data })`: the rows after it, and how many it has changed.
unfoldable pub update_jobs : (Job → Bool) → (Job → Job) → List Job → List Job
update_jobs p f [] = []
update_jobs p f (j ∷ js) = (if p j then f j else j) ∷ update_jobs p f js

unfoldable pub count_jobs : (Job → Bool) → List Job → ℕ
count_jobs p [] = 0
count_jobs p (j ∷ js) = if p j then count_jobs p js + 1 else count_jobs p js

unfoldable pub find_job : (Job → Bool) → List Job → Option Job
find_job p [] = none
find_job p (j ∷ js) = if p j then some j else find_job p js

unfoldable pub has_dedupe_key : Text → Job → Bool
has_dedupe_key k j = elim j.dedupe_key [ none ↦ false | some d ↦ text_eq d k ]

-- `EnqueueJobParams`, with the defaults of the configuration filled in.
pub record EnqueueParams : Type 0 where
  pub type : JobType
  pub tenant : Text
  pub dedupe_key : Option Text
  pub run_at : ℕ
  pub max_attempts : ℕ
  pub backoff_ms : ℕ

unfoldable pub new_job : Text → ℕ → EnqueueParams → Job
new_job fresh now p = record {
  id = fresh;
  type = p.type;
  tenant = p.tenant;
  dedupe_key = p.dedupe_key;
  run_at = p.run_at;
  created_at = now;
  max_attempts = p.max_attempts;
  backoff_ms = p.backoff_ms;
  attempts = 0;
  status = pending;
  locked_at = none;
  locked_by = none;
  succeeded_at = none;
  failed_at = none;
  last_error = none;
}

-- `assertTenantExists`
unfoldable pub assert_tenant_exists : List Text → Text → Result (Unit {0})
assert_tenant_exists tenants t = do
  guard (not (is_empty (trim t))) tenant_id_required
  guard (some_of (λ x. text_eq x (trim t)) tenants) invalid_tenant_id

unfoldable pub find_duplicate : EnqueueParams → List Job → Option Job
find_duplicate p js = elim p.dedupe_key [
  | none ↦ none
  | some k ↦ if is_empty k then none else find_job (has_dedupe_key k) js
]

-- The column is unique, for the empty key too.
unfoldable pub violates_unique : EnqueueParams → List Job → Bool
violates_unique p js = elim p.dedupe_key [
  | none ↦ false
  | some k ↦ ltb 0 (count_jobs (has_dedupe_key k) js)
]

-- `enqueueJob`. The lookup and the insertion are two statements: `seen` are the jobs at the first,
-- the queue is the one at the second. A unique violation is answered by a second lookup, and
-- thrown on if that finds nothing.
unfoldable pub enqueue_job :
    Text → ℕ → List Text → EnqueueParams → List Job → Queue → Result (Queue × Job)
enqueue_job fresh now tenants p seen q = do
  assert_tenant_exists tenants p.tenant
  elim (find_duplicate p seen) [
    | some j ↦ ok (q, j)
    | none ↦
        if violates_unique p q.jobs
        then (elim (find_duplicate p q.jobs) [ some j ↦ ok (q, j) | none ↦ err unique_violation ])
        else ok (record q { jobs = new_job fresh now p ∷ q.jobs }, new_job fresh now p)
  ]

-- `ClaimNextJobParams`
pub record ClaimParams : Type 0 where
  pub worker_id : Text
  pub types : List JobType
  pub limit : ℕ

unfoldable pub of_types : List JobType → Job → Bool
of_types [] j = true
of_types (t ∷ ts) j = some_of (λ x. type_index x == type_index j.type) (t ∷ ts)

unfoldable pub claimable : ℕ → List JobType → Job → Bool
claimable now types j = is_pending j.status && leb j.run_at now && of_types types j

-- `ORDER BY "runAt" ASC, "createdAt" ASC`
abbrev pub before : Job → Job → Bool
before i j = ltb i.run_at j.run_at || (i.run_at == j.run_at && leb i.created_at j.created_at)

unfoldable pub earliest : List Job → Option Job
earliest [] = none
earliest (j ∷ js) = elim (earliest js) [
  | none ↦ some j
  | some i ↦ if before j i then some j else some i
]

unfoldable pub lock_job : ℕ → Text → Job → Job
lock_job now w j = record j { status = processing; locked_at = some now; locked_by = some w }

abbrev pub has_id : Text → Job → Bool
has_id id j = text_eq j.id id

abbrev pub take_job : ℕ → Text → Job → Queue → Queue × Option Job
take_job now w j q =
    let p : Job → Bool = λ x. has_id j.id x && is_pending x.status in
    let jobs = update_jobs p (lock_job now w) q.jobs in
    if count_jobs p q.jobs == 1
    then (record q { jobs = jobs }, find_job (has_id j.id) jobs)
    else (record q { jobs = jobs }, none)

-- `claimNextJob`
unfoldable pub claim_next_job : ℕ → ClaimParams → Queue → Result (Queue × Option Job)
claim_next_job now c q = do
  guard (not (is_empty (trim c.worker_id))) worker_id_required
  if c.limit == 0 then ok (q, none) else (elim (earliest (keep (claimable now c.types) q.jobs)) [
    | none ↦ ok (q, none)
    | some j ↦ ok (take_job now (trim c.worker_id) j q)
  ])

abbrev pub held_by : Text → Text → Job → Bool
held_by id w j = has_id id j && is_processing j.status && locked_by_worker j.locked_by w

unfoldable pub succeed : ℕ → Job → Job
succeed now j = record j {
  status = succeeded;
  succeeded_at = some now;
  locked_at = none;
  locked_by = none;
  last_error = none;
}

-- `markSucceeded`
unfoldable pub mark_succeeded : ℕ → Text → Text → Queue → Queue
mark_succeeded now id w q = record q { jobs = update_jobs (held_by id w) (succeed now) q.jobs }

unfoldable pub bury : ℕ → Text → Job → Job
bury now e j = record j {
  attempts = j.attempts + 1;
  status = dead_letter;
  last_error = some (take 2000 e);
  failed_at = some now;
  locked_at = none;
  locked_by = none;
}

unfoldable pub retry : (ℕ → ℕ) → ℕ → Text → Job → Job
retry jitter now e j = record j {
  attempts = j.attempts + 1;
  status = pending;
  run_at = now + calculate_backoff_ms jitter (j.attempts + 1) j.backoff_ms 600000;
  last_error = some (take 2000 e);
  locked_at = none;
  locked_by = none;
}

-- `nextAttempts >= job.maxAttempts`
unfoldable pub exhausted : Job → Bool
exhausted j = leb j.max_attempts (j.attempts + 1)

unfoldable pub dlq_row : ℕ → Text → Job → DlqRow
dlq_row now e j = record {
  tenant = j.tenant;
  job_id = j.id;
  type = j.type;
  attempts = j.attempts + 1;
  last_error = take 2000 e;
  failed_at = now;
}

-- `markFailed`. Its query compares the status without the cast that the one of `claimNextJob` has;
-- the comparison is taken to work all the same.
unfoldable pub mark_failed : (ℕ → ℕ) → Bool → ℕ → Text → Text → Text → Queue → Queue
mark_failed jitter dlq_enabled now id w e q = elim (find_job (held_by id w) q.jobs) [
  | none ↦ q
  | some j ↦
      if exhausted j
      then record {
        jobs = update_jobs (has_id j.id) (bury now e) q.jobs;
        dlq = if dlq_enabled then dlq_row now e j ∷ q.dlq else q.dlq;
        dead_letters = (j.tenant, (j.id, j.attempts + 1)) ∷ q.dead_letters;
      }
      else record q { jobs = update_jobs (has_id j.id) (retry jitter now e) q.jobs }
]
