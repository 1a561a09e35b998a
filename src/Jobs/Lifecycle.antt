-- ===== src/Jobs/Lifecycle.antt =====
-- The states that a job goes through, whatever the workers do and in whatever order.
use mathlib.Core.Path.{subst}
use loanapp.Common.{
  keep, worker_id_required, is_empty, not, guard, ◌+◌, >>=-eq-ok, inr, ok_injective, inl, ◌∷◌, ◌==◌,
  trim, some, Bool-cases, if◌then◌else◌, none, false, ok, Option, arith, refl, true, ◌≡◌, ◌&&◌,
  Text, Bool, ℕ,
}
use loanapp.Jobs.Queue.{
  earliest, locked_by_worker, claimable, dlq_row, count_jobs, update_jobs, has_id, find_job,
  held_by, take_job, is_pending, EnqueueParams, Queue, Job, ClaimParams, is_processing, exhausted,
  mark_failed, claim_next_job, JobStatus, lock_job, bury, succeed, mark_succeeded, retry, new_job,
}
use loanapp.Jobs.Validity.{
  update_jobs-found, All-found, update_jobs-UniqueIds, is_live, update_jobs-JobValid, JobValid,
  QueueValid,
}

lock_job-JobValid :
    (now : ℕ) (w : Text) (j : Job)
    → JobValid j
    → is_pending j.status ≡ true
    → JobValid (lock_job now w j)
unfolding lock_job
lock_job-JobValid now w j h p = (refl, λ _. h.1 (pending_live j.status p), h.2)
  where
    pending_live : (s : JobStatus) → is_pending s ≡ true → is_live s ≡ true
    pending_live s e = ground arith

succeed-JobValid : (now : ℕ) (j : Job) → JobValid j → JobValid (succeed now j)
unfolding succeed
succeed-JobValid now j h = (refl, λ d. cc, h.2)

pub new_job-JobValid : (fresh : Text) (now : ℕ) (p : EnqueueParams) → JobValid (new_job fresh now p)
unfolding new_job
new_job-JobValid fresh now p = (refl, λ d. omega arith, omega arith)

processing_live : (s : JobStatus) → is_processing s ≡ true → is_live s ≡ true
processing_live s e = ground arith

bury-JobValid :
    (now : ℕ) (e : Text) (j : Job)
    → JobValid j
    → is_processing j.status ≡ true
    → exhausted j ≡ true
    → JobValid (bury now e j)
unfolding bury exhausted
bury-JobValid now e j h p x =
    let left = h.1 (processing_live j.status p) in (refl, λ d. cc, omega arith)

retry-JobValid :
    (jitter : ℕ → ℕ) (now : ℕ) (e : Text) (j : Job)
    → JobValid j
    → is_processing j.status ≡ true
    → exhausted j ≡ false
    → JobValid (retry jitter now e j)
unfolding retry exhausted
retry-JobValid jitter now e j h p x =
    let left = h.1 (processing_live j.status p) in (refl, λ d. ground arith, omega arith)

both_true : (a b : Bool) → (a && b) ≡ true → (a ≡ true) × (b ≡ true)
both_true a b h = ground arith

pub held_parts :
    (id w : Text) (j : Job)
    → held_by id w j ≡ true
    → (has_id id j ≡ true)
      × (is_processing j.status ≡ true)
      × (locked_by_worker j.locked_by w ≡ true)
held_parts id w j h = (ground arith, ground arith, ground arith)

pub mark_failed-QueueValid :
    (jitter : ℕ → ℕ) (dlq : Bool) (now : ℕ) (id w e : Text) (q : Queue)
    → QueueValid q
    → QueueValid (mark_failed jitter dlq now id w e q)
unfolding mark_failed
mark_failed-QueueValid jitter dlq now id w e q h = by_found (find_job (held_by id w) q.jobs) refl
  where
    by_found :
        (o : Option Job)
        → find_job (held_by id w) q.jobs ≡ o
        → QueueValid (elim o [
          | none ↦ q
          | some j ↦
              if exhausted j
              then record {
                jobs = update_jobs (has_id j.id) (bury now e) q.jobs;
                dlq = if dlq then dlq_row now e j ∷ q.dlq else q.dlq;
                dead_letters = (j.tenant, (j.id, j.attempts + 1)) ∷ q.dead_letters;
              }
              else record q { jobs = update_jobs (has_id j.id) (retry jitter now e) q.jobs }
        ])
    by_found none f = h
    by_found (some j) f =
        let (valid, held) = All-found JobValid (held_by id w) q.jobs h.0 f in
        let runs = (held_parts id w j held).1 in
        elim (Bool-cases (exhausted j)) [
          | inl x ↦ rw x (
            update_jobs-found (held_by id w) (bury now e) q.jobs f
                (bury-JobValid now e j valid runs x) h.0 h.1,
            update_jobs-UniqueIds (has_id j.id) (bury now e) (λ y. unfold bury in refl) q.jobs h.1,
          )
          | inr x ↦ rw x (
            update_jobs-found (held_by id w) (retry jitter now e) q.jobs f
                (retry-JobValid jitter now e j valid runs x) h.0 h.1,
            update_jobs-UniqueIds (has_id j.id) (retry jitter now e) (λ y. unfold retry in refl)
                q.jobs h.1,
          )
        ]

pub mark_succeeded-QueueValid :
    (now : ℕ) (id w : Text) (q : Queue) → QueueValid q → QueueValid (mark_succeeded now id w q)
unfolding mark_succeeded
mark_succeeded-QueueValid now id w q h = (
  update_jobs-JobValid (held_by id w) (succeed now) (λ j v _. succeed-JobValid now j v) q.jobs h.0,
  update_jobs-UniqueIds (held_by id w) (succeed now) (λ y. unfold succeed in refl) q.jobs h.1,
)

take_job-QueueValid :
    (now : ℕ) (w : Text) (j : Job) (q : Queue) → QueueValid q → QueueValid (take_job now w j q).0
take_job-QueueValid now w j q h =
    let p : Job → Bool = λ x. has_id j.id x && is_pending x.status in
    let valid =
      update_jobs-JobValid p (lock_job now w)
        (λ x v e. lock_job-JobValid now w x v (both_true (has_id j.id x) _ e).1) q.jobs h.0 in
    let ids = update_jobs-UniqueIds p (lock_job now w) (λ y. unfold lock_job in refl) q.jobs h.1 in
    elim (Bool-cases (count_jobs p q.jobs == 1)) [
      | inl e ↦ rw e (valid, ids)
      | inr e ↦ rw e (valid, ids)
    ]

pub claim_next_job-QueueValid :
    (now : ℕ) (c : ClaimParams) (q : Queue) {r : Queue × Option Job}
    → QueueValid q
    → claim_next_job now c q ≡ ok r
    → QueueValid r.0
unfolding claim_next_job
claim_next_job-QueueValid now c q {r} h e =
    let (_, _, e1) = >>=-eq-ok (guard (not (is_empty (trim c.worker_id))) worker_id_required) _ e in
    by_limit (c.limit == 0) (earliest (keep (claimable now c.types) q.jobs)) e1
  where
    by_limit :
        (b : Bool) (o : Option Job)
        → (if b then ok (q, none) else (elim o [
          | none ↦ ok (q, none)
          | some j ↦ ok (take_job now (trim c.worker_id) j q)
        ]))
          ≡ ok r
        → QueueValid r.0
    by_limit true o s = subst (λ (x : Queue × Option Job). QueueValid x.0) (ok_injective s) h
    by_limit false none s = subst (λ (x : Queue × Option Job). QueueValid x.0) (ok_injective s) h
    by_limit false (some j) s =
        subst (λ (x : Queue × Option Job). QueueValid x.0) (ok_injective s)
          (take_job-QueueValid now (trim c.worker_id) j q h)
