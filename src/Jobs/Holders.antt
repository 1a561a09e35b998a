-- ===== src/Jobs/Holders.antt =====
-- The lock of a job: `markSucceeded` and `markFailed` of `JobQueueService`.
use mathlib.Core.Path.{subst}
use loanapp.Jobs.Validity.{OtherId, UniqueIds}
use loanapp.Jobs.Queue.{
  locked_by_worker, succeed, Queue, has_id, held_by, mark_succeeded, Job, mark_failed, find_job,
  update_jobs,
}
use loanapp.Common.{
  sym, false≢true, inr, true, text_eq_iff, ◌∙◌, refl, inl, [], Bool-cases, ap, arith, text_eq, ◌∷◌,
  false, Bool, none, some, ℕ, All, ◌≡◌, List, Text,
}
use loanapp.Jobs.Lifecycle.{held_parts}

-- Nothing that a worker would hold is among the jobs.
abbrev pub NotHeld : Text → Text → Job → Type 0
NotHeld id v j = held_by id v j ≡ false

not_held : (id v : Text) (j : Job) → has_id id j ≡ false → NotHeld id v j
not_held id v j h = ground arith

locked_elsewhere :
    (id w v : Text) (j : Job) → j.locked_by ≡ some w → text_eq w v ≡ false → NotHeld id v j
locked_elsewhere id w v j p h = elim (Bool-cases (held_by id v j)) [
  | inl t ↦
      let mine : locked_by_worker j.locked_by v ≡ true = (held_parts id v j t).2 in
      let other : locked_by_worker j.locked_by v ≡ false = rw p h in
      absurd (false≢true (sym other ∙ mine))
  | inr f ↦ f
]

others-NotHeld :
    (id v : Text) (x : Job) (js : List Job) → x.id ≡ id → All (OtherId x) js → All (NotHeld id v) js
others-NotHeld id v x [] p h = tt
others-NotHeld id v x (j ∷ js) p h =
    (not_held id v j (subst (λ n. text_eq j.id n ≡ false) p h.0), others-NotHeld id v x js p h.1)

All-NotHeld :
    (id w v : Text) (js : List Job) {k : Job}
    → UniqueIds js
    → find_job (has_id id) js ≡ some k
    → k.locked_by ≡ some w
    → text_eq w v ≡ false
    → All (NotHeld id v) js
unfolding find_job
All-NotHeld id w v [] u e p h = tt
All-NotHeld id w v (x ∷ js) {k} u e p h = elim (Bool-cases (has_id id x)) [
  | inl t ↦
      let s : some x ≡ some k = ground arith in
      let same : x ≡ k = cc in
      let locked : x.locked_by ≡ some w = ap (λ (y : Job). y.locked_by) same ∙ p in
      (locked_elsewhere id w v x locked h, others-NotHeld id v x js ((text_eq_iff x.id id).0 t) u.0)
  | inr t ↦ (not_held id v x t, All-NotHeld id w v js {k = k} u.1 (ground arith) p h)
]

untouched :
    (id v : Text) (f : Job → Job) (js : List Job)
    → All (NotHeld id v) js
    → (update_jobs (held_by id v) f js ≡ js) × (find_job (held_by id v) js ≡ none)
unfolding update_jobs find_job
untouched id v f [] h = (refl, refl)
untouched id v f (j ∷ js) h =
    let rest = untouched id v f js h.1 in (rw h.0 (ap (λ l. j ∷ l) rest.0), rw h.0 rest.1)

-- While a worker has a job locked, what another worker reports of it, a success or a failure,
-- changes nothing.
pub reports_of_others :
    (jitter : ℕ → ℕ) (dlq : Bool) (now : ℕ) (id w v e : Text) (q : Queue) {k : Job}
    → UniqueIds q.jobs
    → find_job (has_id id) q.jobs ≡ some k
    → k.locked_by ≡ some w
    → text_eq w v ≡ false
    → (mark_failed jitter dlq now id v e q ≡ q) × (mark_succeeded now id v q ≡ q)
unfolding mark_failed mark_succeeded
reports_of_others jitter dlq now id w v e q {k} u found p h =
    let kept = untouched id v (succeed now) q.jobs (All-NotHeld id w v q.jobs u found p h) in
    (rw (kept.1, mark_failed) refl, ap (λ (l : List Job). record q { jobs = l }) kept.0)
