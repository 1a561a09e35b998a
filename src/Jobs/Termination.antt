-- ===== src/Jobs/Termination.antt =====
-- A runner that polls a queue into which nothing is enqueued any more.
use loanapp.Jobs.Lifecycle.{claim_next_job-QueueValid}
use loanapp.Jobs.Rounds.{claim_next_job-work_left, report-QueueValid, report-work_left}
use mathlib.Core.Path.{subst}
use loanapp.Jobs.Claims.{claim_next_job-query}
use loanapp.Jobs.Draining.{find-held, work_left}
use loanapp.Jobs.Validity.{QueueValid}
use loanapp.Jobs.Runner.{report, Round, process_all, process_once}
use loanapp.Jobs.Queue.{
  claimable, earliest, take_job, held_by, Job, lock_job, Queue, ClaimParams, claim_next_job,
}
use loanapp.Common.{
  sym, keep, ◌==◌, ◌∷◌, arith, [], refl, ◌≤◌, some, text_eq_refl, none, text_eq, if◌then◌else◌,
  Result, ◌+◌, Option, true, false, ◌≡◌, trim, List, is_empty, Text, Bool, ℕ, ok,
}

claim_next_job-returns :
    (now : ℕ) (c : ClaimParams) (q : Queue)
    → is_empty (trim c.worker_id) ≡ false
    → (r : Queue × Option Job) × (claim_next_job now c q ≡ ok r)
unfolding claim_next_job
claim_next_job-returns now c q h =
    rw (h, claim_next_job)
      (by_limit (c.limit == 0) (earliest (keep (claimable now c.types) q.jobs)))
  where
    by_limit :
        (b : Bool) (o : Option Job)
        → (r : Queue × Option Job) × ◌≡◌ {A = Result (Queue × Option Job)}
            (if b then ok (q, none) else (elim o [
              | none ↦ ok (q, none)
              | some j ↦ ok (take_job now (trim c.worker_id) j q)
            ]))
            (ok r)
    by_limit true o = (_, refl)
    by_limit false none = (_, refl)
    by_limit false (some j) = (_, refl)

module _ (jitter : ℕ → ℕ) (dlq : Bool) (worker : Text) where
  lock_job-held :
      (now : ℕ) (j : Job)
      → trim worker ≡ worker
      → held_by (lock_job now (trim worker) j).id worker (lock_job now (trim worker) j) ≡ true
  unfolding lock_job
  lock_job-held now j h =
      let same : text_eq (trim worker) worker ≡ true = rw (h) (text_eq_refl worker) in
      rw (text_eq_refl j.id, same) refl

  -- A round returns; if it has run a job, fewer attempts are left.
  process_once_lem :
      (r : Round) (q : Queue)
      → trim worker ≡ worker
      → is_empty worker ≡ false
      → QueueValid q
      → (q' : Queue) × (ran : Bool) × (process_once jitter dlq worker r q ≡ ok (q', ran))
        × QueueValid q'
        × ((if ran then 1 else 0) + work_left q'.jobs ≤ work_left q.jobs)
  unfolding process_once
  process_once_lem r q trimmed filled valid =
      let c : ClaimParams = record { worker_id = worker; types = []; limit = 1 } in
      let (claimed, e) = claim_next_job-returns r.claims_at c q (rw (trimmed) filled) in
      let same = claim_next_job-work_left r.claims_at c q {r = claimed} e in
      let kept = claim_next_job-QueueValid r.claims_at c q {r = claimed} valid e in
      rw (e, process_once) (by_claim claimed.0 claimed.1 e same kept)
    where
      by_claim :
          (s : Queue) (o : Option Job)
          → claim_next_job r.claims_at (record { worker_id = worker; types = []; limit = 1 }) q
            ≡ ok (s, o)
          → work_left s.jobs ≡ work_left q.jobs
          → QueueValid s
          → (q' : Queue) × (ran : Bool) × ◌≡◌ {A = Result (Queue × Bool)}
              (ok (elim o as (λ _. Queue × Bool) [
                | none ↦ (s, false)
                | some j ↦ (report jitter dlq worker r j s, true)
              ]))
              (ok (q', ran))
            × QueueValid q'
            × ((if ran then 1 else 0) + work_left q'.jobs ≤ work_left q.jobs)
      by_claim s none e same kept = (s, false, refl, kept, omega arith)
      by_claim s (some k) e same kept =
          let (j, _, _, _, locked, found) =
            claim_next_job-query r.claims_at (record { worker_id = worker; types = []; limit = 1 })
              q {r = s} {k = k} valid.1 e in
          let held : held_by k.id worker k ≡ true =
            subst (λ x. held_by x.id worker x ≡ true) (sym locked)
              (lock_job-held r.claims_at j trimmed) in
          let less =
            report-work_left jitter dlq worker r s kept.1
              (find-held k.id worker s.jobs found held) in
          (
            report jitter dlq worker r k s,
            true,
            refl,
            report-QueueValid jitter dlq worker r k s kept,
            omega arith,
          )

  -- A runner with a name that is not blank, whatever it is told the times are and whatever its
  -- handlers do, returns from any number of calls, and with the runs that these make the attempts
  -- that are left are no more than were left before: it runs jobs no more often than that.
  pub process_all-bounded :
      (rs : List Round) (q : Queue)
      → trim worker ≡ worker
      → is_empty worker ≡ false
      → QueueValid q
      → (q' : Queue) × (n : ℕ) × (process_all jitter dlq worker rs q ≡ ok (q', n))
        × (n + work_left q'.jobs ≤ work_left q.jobs)
  unfolding process_all
  process_all-bounded [] q trimmed filled valid = (q, 0, refl, omega arith)
  process_all-bounded (r ∷ rs) q trimmed filled valid =
      let (one, ran, e, kept, less) = process_once_lem r q trimmed filled valid in
      let (q', n, e', rest) = process_all-bounded rs one trimmed filled kept in
      (q', if ran then n + 1 else n, rw (e, e', process_all) refl, ground arith)
