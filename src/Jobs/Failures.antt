-- ===== src/Jobs/Failures.antt =====
-- What a failure makes of a job: `markFailed` and `calculateBackoffMs`.
use mathlib.Core.Path.{subst}
use loanapp.Jobs.Validity.{OtherId, All-found, UniqueIds}
use native.Mathlib.Nat.{le-mul_of_pos_right, one-le-pow}
use loanapp.Common.{
  if◌then◌else◌, refl, [], text_eq_sym, inr, text_eq_refl, ◌^◌, ◌<◌, inl, ◌*◌, min, Bool-cases,
  none, ◌∷◌, ◌+◌, arith, some, ◌-◌, ◌≡◌, Text, ◌≤◌, List, max, Bool, ℕ,
}
use loanapp.Jobs.Queue.{
  dlq_row, retry, bury, exhausted, JobStatus, dead_letter, held_by, has_id, Queue, Job, update_jobs,
  mark_failed, find_job, calculate_backoff_ms,
}

-- The delay before a job is tried again is at least its base delay, a tenth of a second at least,
-- and at most the cap, or the base where that is longer, whatever chance adds.
pub calculate_backoff_ms-bounds :
    (jitter : ℕ → ℕ) (attempts base cap : ℕ)
    → (max 100 base ≤ calculate_backoff_ms jitter attempts base cap)
      × (calculate_backoff_ms jitter attempts base cap ≤ max (max 100 base) cap)
unfolding calculate_backoff_ms
calculate_backoff_ms-bounds jitter attempts base cap =
    let positive = one-le-pow (attempts - 1) 2 (omega arith) in
    let grows = le-mul_of_pos_right (max 100 base) positive in
    let core = min (max (max 100 base) cap) (max 100 base * 2 ^ (attempts - 1)) in
    (omega arith, omega arith)

-- The job with an id after an update of its row.
find-update_jobs :
    (f : Job → Job) (p : Job → Bool) (js : List Job) {j : Job}
    → ((x : Job) → (f x).id ≡ x.id)
    → find_job p js ≡ some j
    → UniqueIds js
    → find_job (has_id j.id) (update_jobs (has_id j.id) f js) ≡ some (f j)
unfolding find_job update_jobs
find-update_jobs f p [] keeps e u = cc
find-update_jobs f p (x ∷ js) {j} keeps e u = elim (Bool-cases (p x)) [
  | inl t ↦
      let s : some x ≡ some j = ground arith in
      let same : x ≡ j = cc in
      subst (λ y. find_job (has_id y.id) (update_jobs (has_id y.id) f (x ∷ js)) ≡ some (f y)) same
        (rw (text_eq_refl x.id, keeps x, text_eq_refl x.id) refl)
  | inr t ↦
      let e' : find_job p js ≡ some j = ground arith in
      let apart = text_eq_sym j.id x.id (All-found (OtherId x) p js u.0 e').0 in
      rw (apart, apart) (find-update_jobs f p js keeps e' u.1)
]

-- A failure that its worker reports counts as one more attempt and unlocks the job. It becomes a
-- dead letter, with an entry in the log of dead letters, exactly if it has then had the attempts
-- allowed; otherwise it waits to be run again, for at least its base delay and, where that is ten
-- minutes at most, no longer than ten minutes.
pub mark_failed-outcome :
    (jitter : ℕ → ℕ) (dlq : Bool) (now : ℕ) (id w e : Text) (q : Queue) {j : Job}
    → UniqueIds q.jobs
    → find_job (held_by id w) q.jobs ≡ some j
    → let after = mark_failed jitter dlq now id w e q in
      (k : Job) × (find_job (has_id j.id) after.jobs ≡ some k)
      × (k.attempts ≡ j.attempts + 1)
      × (k.locked_by ≡ none)
      × ((j.max_attempts ≤ k.attempts)
          → (k.status ≡ dead_letter)
            × (after.dead_letters ≡ (j.tenant, (j.id, k.attempts)) ∷ q.dead_letters))
      × (k.attempts < j.max_attempts
          → (k.status ≡ JobStatus.pending)
            × (now + max 100 j.backoff_ms ≤ k.run_at)
            × (k.run_at ≤ now + max (max 100 j.backoff_ms) 600000)
            × (after.dead_letters ≡ q.dead_letters))
mark_failed-outcome jitter dlq now id w e q {j} u found = elim (Bool-cases (exhausted j)) [
  | inl x ↦
      let ended : mark_failed jitter dlq now id w e q ≡ record {
        jobs = update_jobs (has_id j.id) (bury now e) q.jobs;
        dlq = if dlq then dlq_row now e j ∷ q.dlq else q.dlq;
        dead_letters = (j.tenant, (j.id, j.attempts + 1)) ∷ q.dead_letters;
      } =
        unfold mark_failed in rw (found, x, mark_failed) refl in
      rw ended (
        bury now e j,
        find-update_jobs (bury now e) (held_by id w) q.jobs (λ y. unfold bury in refl) found u,
        unfold bury in refl,
        unfold bury in refl,
        unfold bury in λ _. (refl, refl),
        unfold bury exhausted in λ more. ground arith,
      )
  | inr x ↦
      let ended : mark_failed jitter dlq now id w e q
          ≡ record q { jobs = update_jobs (has_id j.id) (retry jitter now e) q.jobs } =
        unfold mark_failed in rw (found, x, mark_failed) refl in
      let (low, high) = calculate_backoff_ms-bounds jitter (j.attempts + 1) j.backoff_ms 600000 in
      rw ended (
        retry jitter now e j,
        find-update_jobs (retry jitter now e) (held_by id w) q.jobs (λ y. unfold retry in refl)
            found u,
        unfold retry in refl,
        unfold retry in refl,
        unfold retry exhausted in λ done. ground arith,
        unfold retry in λ more. (refl, omega arith, omega arith, refl),
      )
]
