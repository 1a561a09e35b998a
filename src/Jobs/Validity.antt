-- ===== src/Jobs/Validity.antt =====
-- What holds of every job, and how updates of the table keep it.
use mathlib.Core.Path.{subst}
use mathlib.Core.Option.{none}
use loanapp.Common.{
  ◌≤◌, text_eq_sym, sym, text_eq_refl, inr, arith, max, refl, ◌<◌, inl, some, [], true, Bool-cases,
  false, ap, ◌∷◌, ◌≡◌, Text, Bool, List, All, Option,
}
use loanapp.Jobs.Queue.{
  processing, pending, is_processing, has_id, Job, find_job, JobStatus, update_jobs, Queue,
}

abbrev pub is_live : JobStatus → Bool
is_live pending = true
is_live processing = true
is_live _ = false

abbrev pub is_some : Option Text → Bool
is_some none = false
is_some (some w) = true

-- A job is locked exactly while it is processed; one that waits or is processed has attempts left;
-- and none has had more attempts than it is allowed, or than one.
abbrev pub JobValid : Job → Type 0
JobValid j =
    (is_some j.locked_by ≡ is_processing j.status)
    × (is_live j.status ≡ true → j.attempts < max 1 j.max_attempts)
    × (j.attempts ≤ max 1 j.max_attempts)

abbrev pub OtherId : Job → Job → Type 0
OtherId i j = has_id i.id j ≡ false

abbrev pub UniqueIds : List Job → Type 0
UniqueIds [] = Unit
UniqueIds (j ∷ js) = All (OtherId j) js × UniqueIds js

abbrev pub QueueValid : Queue → Type 0
QueueValid q = All JobValid q.jobs × UniqueIds q.jobs

-- An update where every row that it changes stays valid.
pub update_jobs-JobValid :
    (p : Job → Bool) (f : Job → Job)
    → ((j : Job) → JobValid j → p j ≡ true → JobValid (f j))
    → (js : List Job) → All JobValid js
    → All JobValid (update_jobs p f js)
unfolding update_jobs
update_jobs-JobValid p f keeps [] h = tt
update_jobs-JobValid p f keeps (j ∷ js) h = elim (Bool-cases (p j)) [
  | inl e ↦ rw e (keeps j h.0 e, update_jobs-JobValid p f keeps js h.1)
  | inr e ↦ rw e (h.0, update_jobs-JobValid p f keeps js h.1)
]

pub update_jobs-OtherId :
    (p : Job → Bool) (f : Job → Job)
    → ((j : Job) → (f j).id ≡ j.id)
    → (i : Job) (js : List Job) → All (OtherId i) js
    → All (OtherId i) (update_jobs p f js)
unfolding update_jobs
update_jobs-OtherId p f keeps i [] h = tt
update_jobs-OtherId p f keeps i (j ∷ js) h = elim (Bool-cases (p j)) [
  | inl e ↦ rw (e, keeps j) (h.0, update_jobs-OtherId p f keeps i js h.1)
  | inr e ↦ rw e (h.0, update_jobs-OtherId p f keeps i js h.1)
]

pub update_jobs-UniqueIds :
    (p : Job → Bool) (f : Job → Job)
    → ((j : Job) → (f j).id ≡ j.id)
    → (js : List Job) → UniqueIds js
    → UniqueIds (update_jobs p f js)
unfolding update_jobs
update_jobs-UniqueIds p f keeps [] h = tt
update_jobs-UniqueIds p f keeps (j ∷ js) h = elim (Bool-cases (p j)) [
  | inl e ↦
      let apart : All (OtherId (f j)) (update_jobs p f js) =
        rw (keeps j) (update_jobs-OtherId p f keeps j js h.0) in
      rw e (apart, update_jobs-UniqueIds p f keeps js h.1)
  | inr e ↦ rw e (update_jobs-OtherId p f keeps j js h.0, update_jobs-UniqueIds p f keeps js h.1)
]

-- Rows with other ids are not touched by an update by id.
pub update_jobs-others :
    (i : Job) (f : Job → Job) (js : List Job)
    → All (OtherId i) js
    → update_jobs (has_id i.id) f js ≡ js
unfolding update_jobs
update_jobs-others i f [] h = refl
update_jobs-others i f (j ∷ js) h = rw (h.0) (ap (λ l. j ∷ l) (update_jobs-others i f js h.1))

pub All-found :
    (P : Job → Type 0) (p : Job → Bool) (js : List Job) {j : Job}
    → All P js
    → find_job p js ≡ some j
    → P j × (p j ≡ true)
unfolding find_job
All-found P p [] h e = cc
All-found P p (x ∷ js) {j} h e = elim (Bool-cases (p x)) [
  | inl t ↦
      let s : some x ≡ some j = ground arith in
      let same : x ≡ j = cc in subst (λ y. P y × (p y ≡ true)) same (h.0, t)
  | inr t ↦ All-found P p js h.1 (ground arith)
]

-- An update by id of a row that was found stays valid if that row does.
pub update_jobs-found :
    (p : Job → Bool) (f : Job → Job) (js : List Job) {j : Job}
    → find_job p js ≡ some j
    → JobValid (f j)
    → All JobValid js
    → UniqueIds js
    → All JobValid (update_jobs (has_id j.id) f js)
unfolding find_job update_jobs
update_jobs-found p f [] e v h u = tt
update_jobs-found p f (x ∷ js) {j} e v h u = elim (Bool-cases (p x)) [
  | inl t ↦
      let s : some x ≡ some j = ground arith in
      let same : x ≡ j = cc in
      subst (λ y. All JobValid (update_jobs (has_id y.id) f (x ∷ js))) same
        (rw (text_eq_refl x.id, update_jobs-others x f js u.0)
          (subst (λ y. JobValid (f y)) (sym same) v, h.1))
  | inr t ↦
      let e' : find_job p js ≡ some j = ground arith in
      let apart = text_eq_sym j.id x.id (All-found (OtherId x) p js u.0 e').0 in
      rw apart (h.0, update_jobs-found p f js e' v h.1 u.1)
]
