-- ===== src/Jobs/Interventions.antt =====
-- That the table stays in order under what administrators do to jobs.
use mathlib.Core.Path.{subst}
use loanapp.Jobs.Validity.{
  is_live, update_jobs-JobValid, is_some, update_jobs-UniqueIds, QueueValid, JobValid,
}
use loanapp.Jobs.Queue.{
  JobStatus, is_processing, dead_letter, has_id, Queue, Job, find_job, update_jobs,
}
use loanapp.Jobs.Operations.{
  is_stopped, unlock_job, set_dead_letter, move_to_dlq, restart, cancel_job, cancel, retry_job,
  release_claim,
}
use loanapp.Common.{
  text_eq_iff, ◌∙◌, sym, false≢true, ap, false, [], some_same, inr, inl, true, none, some,
  Bool-cases, Option-cases, refl, ◌≡◌, Bool, ◌∷◌, arith, ◌&&◌, All, ℕ, List, Text,
}

pub release_claim-QueueValid :
    (id : Text) (q : Queue) → QueueValid q → QueueValid (release_claim id q)
unfolding release_claim
release_claim-QueueValid id q h = (
  update_jobs-JobValid (λ j. has_id id j && is_processing j.status) unlock_job
      (λ j v e. released j v e) q.jobs h.0,
  update_jobs-UniqueIds (λ j. has_id id j && is_processing j.status) unlock_job
      (λ y. unfold unlock_job in refl) q.jobs h.1,
)
  where
    released :
        (j : Job)
        → JobValid j
        → (has_id id j && is_processing j.status) ≡ true
        → JobValid (unlock_job j)
    released j v e = unfold unlock_job in (refl, λ _. v.1 (running (has_id id j) j.status e), v.2)
      where
        running : (b : Bool) (s : JobStatus) → (b && is_processing s) ≡ true → is_live s ≡ true
        running b s h = ground arith

restart-JobValid : (now : ℕ) (j : Job) → JobValid (restart now j)
unfolding restart
restart-JobValid now j = (refl, λ _. omega arith, omega arith)

pub retry_job-QueueValid :
    (now : ℕ) (id : Text) (seen : List Job) (q : Queue)
    → QueueValid q
    → QueueValid (retry_job now id seen q).0
unfolding retry_job
retry_job-QueueValid now id seen q h = elim (Option-cases (find_job (has_id id) seen)) [
  | inl e ↦ rw (e, retry_job) h
  | inr (j, e) ↦ elim (Bool-cases (is_stopped j.status)) [
    | inl b ↦
        rw (e, b, retry_job)
          (
            update_jobs-JobValid (has_id id) (restart now) (λ x _ _. restart-JobValid now x) q.jobs
                h.0,
            update_jobs-UniqueIds (has_id id) (restart now) (λ y. unfold restart in refl) q.jobs
                h.1,
          )
    | inr b ↦ rw (e, b, retry_job) h
  ]
]

-- Every job with the id is unlocked.
abbrev Unlocked : Text → Job → Type 0
Unlocked id j = has_id id j ≡ true → is_some j.locked_by ≡ false

cancel-JobValid : (now : ℕ) (reason : Text) (j : Job) → JobValid j → JobValid (cancel now reason j)
unfolding cancel
cancel-JobValid now reason j v = (refl, λ d. cc, v.2)

cancelled-Unlocked :
    (now : ℕ) (id reason : Text) (js : List Job)
    → All (Unlocked id) (update_jobs (has_id id) (cancel now reason) js)
unfolding update_jobs
cancelled-Unlocked now id reason [] = tt
cancelled-Unlocked now id reason (j ∷ js) = elim (Bool-cases (has_id id j)) [
  | inl e ↦ rw e (λ _. unfold cancel in refl, cancelled-Unlocked now id reason js)
  | inr e ↦ rw e (λ t. absurd (false≢true (sym e ∙ t)), cancelled-Unlocked now id reason js)
]

absent-Unlocked :
    (id : Text) (js : List Job) → find_job (has_id id) js ≡ none → All (Unlocked id) js
unfolding find_job
absent-Unlocked id [] h = tt
absent-Unlocked id (j ∷ js) h = elim (Bool-cases (has_id id j)) [
  | inl e ↦ let clash : some j ≡ none = ground arith in cc
  | inr e ↦ (λ t. absurd (false≢true (sym e ∙ t)), absent-Unlocked id js (ground arith))
]

found_id : (id : Text) (js : List Job) {j : Job} → find_job (has_id id) js ≡ some j → j.id ≡ id
unfolding find_job
found_id id [] h = cc
found_id id (x ∷ js) {j} h = elim (Bool-cases (has_id id x)) [
  | inl e ↦
      let s : some x ≡ some j = ground arith in
      let same : x ≡ j = some_same s in
      ap (λ (y : Job). y.id) (sym same) ∙ (text_eq_iff x.id id).0 e
  | inr e ↦ found_id id js {j = j} (ground arith)
]

pub cancel_job-QueueValid :
    (now : ℕ) (id reason : Text) (q : Queue)
    → QueueValid q
    → QueueValid (cancel_job now id reason q) × All (Unlocked id) (cancel_job now id reason q).jobs
unfolding cancel_job
cancel_job-QueueValid now id reason q h = elim (Option-cases (find_job (has_id id) q.jobs)) [
  | inl e ↦ rw (e, cancel_job) (h, absent-Unlocked id q.jobs e)
  | inr (j, e) ↦
      rw (e, cancel_job)
        (
          (
            update_jobs-JobValid (has_id j.id) (cancel now reason)
                (λ x v _. cancel-JobValid now reason x v) q.jobs h.0,
            update_jobs-UniqueIds (has_id j.id) (cancel now reason) (λ y. unfold cancel in refl)
                q.jobs h.1,
          ),
          subst (λ i. All (Unlocked id) (update_jobs (has_id i) (cancel now reason) q.jobs))
              (sym (found_id id q.jobs e)) (cancelled-Unlocked now id reason q.jobs),
        )
]

set_dead_letter-JobValid :
    (id : Text) (js : List Job)
    → All JobValid js
    → All (Unlocked id) js
    → All JobValid (update_jobs (has_id id) (λ j. record j { status = dead_letter }) js)
unfolding update_jobs
set_dead_letter-JobValid id [] h u = tt
set_dead_letter-JobValid id (j ∷ js) h u = elim (Bool-cases (has_id id j)) [
  | inl e ↦ rw e ((u.0 e, λ d. cc, h.0.2), set_dead_letter-JobValid id js h.1 u.1)
  | inr e ↦ rw e (h.0, set_dead_letter-JobValid id js h.1 u.1)
]

pub move_to_dlq-QueueValid :
    (now : ℕ) (id reason : Text) (q : Queue)
    → QueueValid q
    → QueueValid (move_to_dlq now id reason q)
unfolding move_to_dlq set_dead_letter
move_to_dlq-QueueValid now id reason q h =
    let (valid, free) = cancel_job-QueueValid now id reason q h in
    (
      set_dead_letter-JobValid id (cancel_job now id reason q).jobs valid.0 free,
      update_jobs-UniqueIds (has_id id) (λ j. record j { status = dead_letter }) (λ y. refl)
          (cancel_job now id reason q).jobs valid.1,
    )
