-- ===== src/Jobs/Rounds.antt =====
-- The rounds of a runner, however many and whatever the handlers do.
use mathlib.Core.Bool.{false}
use loanapp.Jobs.Lifecycle.{mark_failed-QueueValid, mark_succeeded-QueueValid}
use loanapp.Jobs.Draining.{
  retry-attempts_left, bury-attempts_left, work_left-found, held_live, succeed-attempts_left,
  work_left-update_jobs, work_left-lock_job, work_left,
}
use loanapp.Jobs.Validity.{All-found, QueueValid, UniqueIds}
use loanapp.Jobs.Runner.{Round, report}
use loanapp.Jobs.Queue.{
  claimable, earliest, retry, bury, exhausted, is_pending, has_id, count_jobs, succeed, mark_failed,
  mark_succeeded, held_by, take_job, find_job, Job, Queue, ClaimParams, claim_next_job,
}
use loanapp.Common.{
  keep, worker_id_required, is_empty, not, guard, >>=-eq-ok, ◌∙◌, [], ok_injective, sym, ap,
  if◌then◌else◌, inr, inl, ◌==◌, true, ◌&&◌, ◌∷◌, All, List, Bool-cases, ◌<◌, some, trim, none, ◌≡◌,
  Option, Text, Bool, ℕ, ok,
}

pub claim_next_job-work_left :
    (now : ℕ) (c : ClaimParams) (q : Queue) {r : Queue × Option Job}
    → claim_next_job now c q ≡ ok r
    → work_left r.0.jobs ≡ work_left q.jobs
unfolding claim_next_job
claim_next_job-work_left now c q {r} e =
    let (_, _, e1) = >>=-eq-ok (guard (not (is_empty (trim c.worker_id))) worker_id_required) _ e in
    by_limit (c.limit == 0) (earliest (keep (claimable now c.types) q.jobs)) e1
  where
    taken : (j : Job) → work_left (take_job now (trim c.worker_id) j q).0.jobs ≡ work_left q.jobs
    taken j =
        let same = work_left-lock_job now (trim c.worker_id) j.id q.jobs in
        elim (Bool-cases (count_jobs (λ x. has_id j.id x && is_pending x.status) q.jobs == 1)) [
          | inl h ↦ rw (h) same
          | inr h ↦ rw (h) same
        ]

    by_limit :
        (b : Bool) (o : Option Job)
        → (if b then ok (q, none) else (elim o [
          | none ↦ ok (q, none)
          | some j ↦ ok (take_job now (trim c.worker_id) j q)
        ]))
          ≡ ok r
        → work_left r.0.jobs ≡ work_left q.jobs
    by_limit true o s = ap (λ (x : Queue × Option Job). work_left x.0.jobs) (sym (ok_injective s))
    by_limit false none s =
        ap (λ (x : Queue × Option Job). work_left x.0.jobs) (sym (ok_injective s))
    by_limit false (some j) s =
        ap (λ (x : Queue × Option Job). work_left x.0.jobs) (sym (ok_injective s)) ∙ taken j

module _ (jitter : ℕ → ℕ) (dlq : Bool) (worker : Text) where
  mark_failed-work_left :
      (now : ℕ) (id e : Text) (q : Queue) {j : Job}
      → UniqueIds q.jobs
      → find_job (held_by id worker) q.jobs ≡ some j
      → work_left (mark_failed jitter dlq now id worker e q).jobs < work_left q.jobs
  mark_failed-work_left now id e q {j} u found =
      let held = (All-held q.jobs found) in
      let live = held_live id worker j held in
      elim (Bool-cases (exhausted j)) [
        | inl x ↦
            unfold mark_failed in
            rw (found, x, mark_failed)
              (work_left-found (held_by id worker) (bury now e) q.jobs found
                (bury-attempts_left now e j live) u)
        | inr x ↦
            unfold mark_failed in
            rw (found, x, mark_failed)
              (work_left-found (held_by id worker) (retry jitter now e) q.jobs found
                (retry-attempts_left jitter now e j live x) u)
      ]
    where
      all_true : (js : List Job) → All (λ _. Unit {0}) js
      all_true [] = tt
      all_true (x ∷ js) = (tt, all_true js)

      All-held :
          (js : List Job) → find_job (held_by id worker) js ≡ some j → held_by id worker j ≡ true
      All-held js f = (All-found (λ _. Unit {0}) (held_by id worker) js (all_true js) f).1

  pub report-work_left :
      (r : Round) (q : Queue) {j : Job}
      → UniqueIds q.jobs
      → find_job (held_by j.id worker) q.jobs ≡ some j
      → work_left (report jitter dlq worker r j q).jobs < work_left q.jobs
  unfolding report
  report-work_left r q {j} u found = by_handler (r.handler j)
    where
      by_handler :
          (o : Option Text)
          → work_left
              (elim o as (λ _. Queue) [
                | none ↦ mark_succeeded r.reports_at j.id worker q
                | some e ↦ mark_failed jitter dlq r.reports_at j.id worker e q
              ]).jobs
            < work_left q.jobs
      by_handler none =
          unfold mark_succeeded in
          work_left-update_jobs (held_by j.id worker) (succeed r.reports_at) q.jobs {j = j}
            (λ x h. succeed-attempts_left r.reports_at x (held_live j.id worker x h)) found
      by_handler (some e) = mark_failed-work_left r.reports_at j.id e q u found

  pub report-QueueValid :
      (r : Round) (j : Job) (q : Queue) → QueueValid q → QueueValid (report jitter dlq worker r j q)
  unfolding report
  report-QueueValid r j q h = by_handler (r.handler j)
    where
      by_handler :
          (o : Option Text)
          → QueueValid (elim o as (λ _. Queue) [
            | none ↦ mark_succeeded r.reports_at j.id worker q
            | some e ↦ mark_failed jitter dlq r.reports_at j.id worker e q
          ])
      by_handler none = mark_succeeded-QueueValid r.reports_at j.id worker q h
      by_handler (some e) = mark_failed-QueueValid jitter dlq r.reports_at j.id worker e q h
