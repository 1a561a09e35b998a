-- ===== src/Jobs/Draining.antt =====
-- How often the jobs of a queue can be run.
use mathlib.Core.Path.{subst}
use loanapp.Jobs.Lifecycle.{held_parts}
use loanapp.Jobs.Validity.{OtherId, All-found, update_jobs-others, UniqueIds, is_live}
use loanapp.Jobs.Queue.{
  is_pending, held_by, exhausted, has_id, succeed, find_job, bury, update_jobs, retry, lock_job,
  Job,
}
use loanapp.Common.{
  text_eq_sym, text_eq_refl, refl, sym, [], inr, inl, ◌≤◌, arith, Bool-cases, ◌<◌, ◌-◌, false, ◌∷◌,
  max, some, true, sum_by, ◌&&◌, ◌≡◌, if◌then◌else◌, Bool, ℕ, List, Text,
}

-- The attempts that a job has left: one at least while it waits or is run.
unfoldable pub attempts_left : Job → ℕ
attempts_left j = if is_live j.status then max 1 (j.max_attempts - j.attempts) else 0

abbrev pub work_left : List Job → ℕ
work_left js = sum_by attempts_left js

lock_job-attempts_left :
    (now : ℕ) (w : Text) (j : Job)
    → is_pending j.status ≡ true
    → attempts_left (lock_job now w j) ≡ attempts_left j
unfolding attempts_left lock_job
lock_job-attempts_left now w j h = ground arith

pub work_left-lock_job :
    (now : ℕ) (w id : Text) (js : List Job)
    → work_left (update_jobs (λ x. has_id id x && is_pending x.status) (lock_job now w) js)
      ≡ work_left js
unfolding update_jobs
work_left-lock_job now w id [] = refl
work_left-lock_job now w id (j ∷ js) =
    let rest = work_left-lock_job now w id js in
    elim (Bool-cases (has_id id j && is_pending j.status)) [
      | inl h ↦
          let same = lock_job-attempts_left now w j (waits (has_id id j) (is_pending j.status) h) in
          rw (h) (omega arith)
      | inr h ↦ rw (h) (omega arith)
    ]
  where
    waits : (a b : Bool) → (a && b) ≡ true → b ≡ true
    waits a b e = ground arith

-- An update that takes from each row that it changes takes from the whole.
pub work_left-update_jobs :
    (p : Job → Bool) (f : Job → Job) (js : List Job) {j : Job}
    → ((x : Job) → p x ≡ true → attempts_left (f x) < attempts_left x)
    → find_job p js ≡ some j
    → work_left (update_jobs p f js) < work_left js
unfolding update_jobs find_job
work_left-update_jobs p f [] less e = cc
work_left-update_jobs p f (x ∷ js) {j} less e = elim (Bool-cases (p x)) [
  | inl h ↦ let here = less x h in let rest = no_more js in rw (h) (omega arith)
  | inr h ↦
      let rest = work_left-update_jobs p f js {j = j} less (ground arith) in rw (h) (omega arith)
]
  where
    no_more : (ys : List Job) → work_left (update_jobs p f ys) ≤ work_left ys
    no_more [] = omega arith
    no_more (y ∷ ys) =
        let rest = no_more ys in
        elim (Bool-cases (p y)) [
          | inl h ↦ let here = less y h in rw (h) (omega arith)
          | inr h ↦ rw (h) (omega arith)
        ]

-- The same for an update by the id of a row that was found.
pub work_left-found :
    (p : Job → Bool) (f : Job → Job) (js : List Job) {j : Job}
    → find_job p js ≡ some j
    → attempts_left (f j) < attempts_left j
    → UniqueIds js
    → work_left (update_jobs (has_id j.id) f js) < work_left js
unfolding find_job update_jobs
work_left-found p f [] e less u = cc
work_left-found p f (x ∷ js) {j} e less u = elim (Bool-cases (p x)) [
  | inl t ↦
      let s : some x ≡ some j = ground arith in
      let same : x ≡ j = cc in
      let less' = subst (λ y. attempts_left (f y) < attempts_left y) (sym same) less in
      subst (λ y. work_left (update_jobs (has_id y.id) f (x ∷ js)) < work_left (x ∷ js)) same
        (rw (text_eq_refl x.id, update_jobs-others x f js u.0) (omega arith))
  | inr t ↦
      let e' : find_job p js ≡ some j = ground arith in
      let apart = text_eq_sym j.id x.id (All-found (OtherId x) p js u.0 e').0 in
      let rest = work_left-found p f js e' less u.1 in rw (apart) (omega arith)
]

pub held_live : (id w : Text) (j : Job) → held_by id w j ≡ true → is_live j.status ≡ true
held_live id w j h = let (_, runs, _) = held_parts id w j h in ground arith

pub succeed-attempts_left :
    (now : ℕ) (j : Job) → is_live j.status ≡ true → attempts_left (succeed now j) < attempts_left j
unfolding attempts_left succeed
succeed-attempts_left now j h = ground arith

pub bury-attempts_left :
    (now : ℕ) (e : Text) (j : Job)
    → is_live j.status ≡ true
    → attempts_left (bury now e j) < attempts_left j
unfolding attempts_left bury
bury-attempts_left now e j h = ground arith

pub retry-attempts_left :
    (jitter : ℕ → ℕ) (now : ℕ) (e : Text) (j : Job)
    → is_live j.status ≡ true
    → exhausted j ≡ false
    → attempts_left (retry jitter now e j) < attempts_left j
unfolding attempts_left retry exhausted
retry-attempts_left jitter now e j h x = ground arith

pub find-held :
    (id w : Text) (js : List Job) {k : Job}
    → find_job (has_id id) js ≡ some k
    → held_by id w k ≡ true
    → find_job (held_by id w) js ≡ some k
unfolding find_job
find-held id w [] e h = cc
find-held id w (x ∷ js) {k} e h = elim (Bool-cases (has_id id x)) [
  | inl t ↦
      let s : some x ≡ some k = ground arith in
      let same : x ≡ k = cc in
      let held : held_by id w x ≡ true = subst (λ y. held_by id w y ≡ true) (sym same) h in
      rw (held) s
  | inr t ↦ let rest = find-held id w js {k = k} (ground arith) h in rw (t) rest
]
