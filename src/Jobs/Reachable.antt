-- ===== src/Jobs/Reachable.antt =====
-- The queues that callers, workers and administrators can bring about with `JobQueueService`,
-- `JobsService` and `JobOutboxService`.
use loanapp.Jobs.Interventions.{
  move_to_dlq-QueueValid, cancel_job-QueueValid, retry_job-QueueValid, release_claim-QueueValid,
}
use loanapp.Jobs.Operations.{move_to_dlq, cancel_job, retry_job, release_claim}
use mathlib.Core.Path.{subst}
use loanapp.Jobs.Validity.{QueueValid}
use loanapp.Common.{
  true, >>=-eq-ok, none, ok_injective, unique_violation, err, if◌then◌else◌, some, Result, Option,
  ◌∷◌, ok, false, ◌≡◌, text_eq, All, [], List, Bool, Text, ℕ,
}
use loanapp.Jobs.Queue.{
  violates_unique, find_duplicate, assert_tenant_exists, mark_failed, mark_succeeded,
  claim_next_job, ClaimParams, new_job, Job, Queue, EnqueueParams, enqueue_job,
}
use loanapp.Jobs.Lifecycle.{
  claim_next_job-QueueValid, new_job-JobValid, mark_failed-QueueValid, mark_succeeded-QueueValid,
}

-- One call on the queue. A job that is added has an id that no job has.
pub data Step (jitter : ℕ → ℕ) (dlq_enabled : Bool) (tenants : List Text)
    : Queue → Queue → Type 0 where
  enqueued :
      {q r : Queue} (fresh : Text) (now : ℕ) (p : EnqueueParams) (seen : List Job) (j : Job)
      → All (λ x. text_eq x.id fresh ≡ false) q.jobs
      → enqueue_job fresh now tenants p seen q ≡ ok (r, j)
      → Step jitter dlq_enabled tenants q r
  claimed :
      {q r : Queue} (now : ℕ) (c : ClaimParams) (o : Option Job)
      → claim_next_job now c q ≡ ok (r, o)
      → Step jitter dlq_enabled tenants q r
  marked_succeeded :
      {q : Queue} (now : ℕ) (id w : Text)
      → Step jitter dlq_enabled tenants q (mark_succeeded now id w q)
  marked_failed :
      {q : Queue} (now : ℕ) (id w e : Text)
      → Step jitter dlq_enabled tenants q (mark_failed jitter dlq_enabled now id w e q)
  released : {q : Queue} (id : Text) → Step jitter dlq_enabled tenants q (release_claim id q)
  retried :
      {q : Queue} (now : ℕ) (id : Text) (seen : List Job)
      → Step jitter dlq_enabled tenants q (retry_job now id seen q).0
  cancelled :
      {q : Queue} (now : ℕ) (id reason : Text)
      → Step jitter dlq_enabled tenants q (cancel_job now id reason q)
  moved_to_dlq :
      {q : Queue} (now : ℕ) (id reason : Text)
      → Step jitter dlq_enabled tenants q (move_to_dlq now id reason q)

pub data Reachable (jitter : ℕ → ℕ) (dlq_enabled : Bool) (tenants : List Text)
    : Queue → Type 0 where
  empty : Reachable jitter dlq_enabled tenants (record { jobs = []; dlq = []; dead_letters = [] })
  after :
      {q r : Queue}
      → Reachable jitter dlq_enabled tenants q
      → Step jitter dlq_enabled tenants q r
      → Reachable jitter dlq_enabled tenants r

enqueue_job-QueueValid :
    (fresh : Text) (now : ℕ) (tenants : List Text) (p : EnqueueParams) (seen : List Job) (q : Queue)
    {r : Queue × Job}
    → All (λ x. text_eq x.id fresh ≡ false) q.jobs
    → QueueValid q
    → enqueue_job fresh now tenants p seen q ≡ ok r
    → QueueValid r.0
unfolding enqueue_job
enqueue_job-QueueValid fresh now tenants p seen q {r} new h e =
    let (_, _, e1) = >>=-eq-ok (assert_tenant_exists tenants p.tenant) _ e in
    by_lookup (find_duplicate p seen) (violates_unique p q.jobs) (find_duplicate p q.jobs) e1
  where
    added : QueueValid (record q { jobs = new_job fresh now p ∷ q.jobs })
    added = ((new_job-JobValid fresh now p, h.0), (unfold new_job in new, h.1))

    by_lookup :
        (o : Option Job) (b : Bool) (o' : Option Job)
        → elim o as (λ _. Result (Queue × Job)) [
          | some j ↦ ok (q, j)
          | none ↦
              if b
              then (elim o' [ some j ↦ ok (q, j) | none ↦ err unique_violation ])
              else ok (record q { jobs = new_job fresh now p ∷ q.jobs }, new_job fresh now p)
        ]
          ≡ ok r
        → QueueValid r.0
    by_lookup (some j) b o' s = subst (λ (x : Queue × Job). QueueValid x.0) (ok_injective s) h
    by_lookup none true (some j) s = subst (λ (x : Queue × Job). QueueValid x.0) (ok_injective s) h
    by_lookup none true none s = cc
    by_lookup none false o' s = subst (λ (x : Queue × Job). QueueValid x.0) (ok_injective s) added

module _ (jitter : ℕ → ℕ) (dlq_enabled : Bool) (tenants : List Text) where
  Step-QueueValid :
      {q r : Queue} → QueueValid q → Step jitter dlq_enabled tenants q r → QueueValid r
  Step-QueueValid h (enqueued {q} {r} fresh now p seen j new e) =
      enqueue_job-QueueValid fresh now tenants p seen q {r = (r, j)} new h e
  Step-QueueValid h (claimed {q} {r} now c o e) = claim_next_job-QueueValid now c q {r = (r, o)} h e
  Step-QueueValid h (marked_succeeded {q} now id w) = mark_succeeded-QueueValid now id w q h
  Step-QueueValid h (marked_failed {q} now id w e) =
      mark_failed-QueueValid jitter dlq_enabled now id w e q h
  Step-QueueValid h (released {q} id) = release_claim-QueueValid id q h
  Step-QueueValid h (retried {q} now id seen) = retry_job-QueueValid now id seen q h
  Step-QueueValid h (cancelled {q} now id reason) = (cancel_job-QueueValid now id reason q h).0
  Step-QueueValid h (moved_to_dlq {q} now id reason) = move_to_dlq-QueueValid now id reason q h

  -- In every queue that enqueueing, claiming, the reports of workers, and the releases, retries,
  -- cancellations and moves to the dead letters of administrators bring about from the empty one,
  -- in any order, a job is locked exactly while it is processed, a job that waits or is processed
  -- has attempts left, none has had more attempts than it is allowed, or than one where it is
  -- allowed none, and no two jobs have one id.
  pub Reachable-QueueValid : {q : Queue} → Reachable jitter dlq_enabled tenants q → QueueValid q
  Reachable-QueueValid empty = (tt, tt)
  Reachable-QueueValid (after before step) = Step-QueueValid (Reachable-QueueValid before) step
