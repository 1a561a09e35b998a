-- ===== src/Jobs/Claims.antt =====
-- Which job `claimNextJob` gives to a worker.
use loanapp.Jobs.Validity.{OtherId, UniqueIds}
use mathlib.Core.Path.{subst}
use loanapp.Common.{
  Result, worker_id_required, is_empty, not, guard, ◌==◌, >>=-eq-ok, ◌∙◌, All-keep, ok_injective,
  sym, ◌&&◌, ap, Text, trim, ok, text_eq_refl, inr, text_eq_sym, keep, inl, ℕ, Bool-cases, Bool,
  refl, if◌then◌else◌, none, [], Option, arith, ◌∷◌, some, true, false, All, ◌≡◌, List,
}
use loanapp.Jobs.Queue.{
  count_jobs, is_pending, take_job, update_jobs, JobType, lock_job, claimable, Queue, ClaimParams,
  has_id, find_job, claim_next_job, before, earliest, Job,
}

before_refl : (j : Job) → before j j ≡ true
before_refl j = ground arith

before_trans : (i j k : Job) → before i j ≡ true → before j k ≡ true → before i k ≡ true
before_trans i j k p q = ground arith

before_total : (i j : Job) → before i j ≡ false → before j i ≡ true
before_total i j p = ground arith

All-before :
    (i j : Job) (js : List Job)
    → before i j ≡ true
    → All (λ x. before j x ≡ true) js
    → All (λ x. before i x ≡ true) js
All-before i j [] p h = tt
All-before i j (x ∷ js) p h = (before_trans i j x p h.0, All-before i j js p h.1)

earliest-none : (js : List Job) → earliest js ≡ none → js ≡ []
unfolding earliest
earliest-none [] h = refl
earliest-none (x ∷ js) h = absurd (some_first (earliest js) h)
  where
    some_first :
        (o : Option Job)
        → elim o as (λ _. Option Job) [
          | none ↦ some x
          | some i ↦ if before x i then some x else some i
        ]
          ≡ none
        → ⊥
    some_first none t = cc
    some_first (some i) t = ground arith

-- The job that comes first has what all of them have, and comes before each of them.
earliest-All :
    (P : Job → Type 0) (js : List Job) {j : Job}
    → All P js
    → earliest js ≡ some j
    → P j × All (λ x. before j x ≡ true) js
unfolding earliest
earliest-All P [] h e = cc
earliest-All P (x ∷ js) {j} h e =
    by_rest (earliest js) refl e (λ i f. earliest-All P js {j = i} h.1 f)
  where
    chosen :
        {i : Job}
        → some i ≡ some j
        → P i × All (λ z. before i z ≡ true) (x ∷ js)
        → P j × All (λ z. before j z ≡ true) (x ∷ js)
    chosen {i} t v =
        let same : i ≡ j = cc in subst (λ y. P y × All (λ z. before y z ≡ true) (x ∷ js)) same v

    by_rest :
        (o : Option Job)
        → earliest js ≡ o
        → elim o as (λ _. Option Job) [
          | none ↦ some x
          | some i ↦ if before x i then some x else some i
        ]
          ≡ some j
        → ((i : Job) → earliest js ≡ some i → P i × All (λ z. before i z ≡ true) js)
        → P j × All (λ y. before j y ≡ true) (x ∷ js)
    by_rest none f s again =
        let alone : All (λ z. before x z ≡ true) js = rw (earliest-none js f) tt in
        chosen s (h.0, (before_refl x, alone))
    by_rest (some i) f s again =
        let (pi, all) = again i f in
        elim (Bool-cases (before x i)) [
          | inl b ↦ chosen {i = x} (ground arith) (h.0, (before_refl x, All-before x i js b all))
          | inr b ↦ chosen {i = i} (ground arith) (pi, (before_total x i b, all))
        ]

Found-cons :
    (x : Job) (js l : List Job)
    → All (OtherId x) l
    → All (λ j. find_job (has_id j.id) js ≡ some j) l
    → All (λ j. find_job (has_id j.id) (x ∷ js) ≡ some j) l
unfolding find_job
Found-cons x js [] o h = tt
Found-cons x js (j ∷ l) o h = (rw (text_eq_sym j.id x.id o.0) h.0, Found-cons x js l o.1 h.1)

Found-All : (js : List Job) → UniqueIds js → All (λ j. find_job (has_id j.id) js ≡ some j) js
Found-All [] u = tt
Found-All (x ∷ js) u =
    (unfold find_job in rw (text_eq_refl x.id) refl, Found-cons x js js u.0 (Found-All js u.1))

keep-true : (p : Job → Bool) (js : List Job) → All (λ j. p j ≡ true) (keep p js)
keep-true p [] = tt
keep-true p (x ∷ js) = elim (Bool-cases (p x)) [
  | inl e ↦ rw (e, keep) (e, keep-true p js)
  | inr e ↦ rw (e, keep) (keep-true p js)
]

All-both : (P Q : Job → Type 0) (js : List Job) → All P js → All Q js → All (λ j. P j × Q j) js
All-both P Q [] h k = tt
All-both P Q (x ∷ js) h k = ((h.0, k.0), All-both P Q js h.1 k.1)

-- The row that is locked is found again under its id.
find-locked :
    (now : ℕ) (w id : Text) (js : List Job) {j : Job}
    → find_job (has_id id) js ≡ some j
    → is_pending j.status ≡ true
    → find_job
        (has_id id)
        (update_jobs (λ x. has_id id x && is_pending x.status) (lock_job now w) js)
      ≡ some (lock_job now w j)
unfolding find_job update_jobs
find-locked now w id [] e p = cc
find-locked now w id (x ∷ js) {j} e p = elim (Bool-cases (has_id id x)) [
  | inl t ↦
      let s : some x ≡ some j = ground arith in
      let same : x ≡ j = cc in
      let waits : is_pending x.status ≡ true = rw same p in
      rw (t, waits) (unfold lock_job in rw t (ap (λ (y : Job). some (lock_job now w y)) same))
  | inr t ↦
      let e' : find_job (has_id id) js ≡ some j = ground arith in
      rw (t, t) (find-locked now w id js e' p)
]

claimable_pending :
    (now : ℕ) (types : List JobType) (j : Job)
    → claimable now types j ≡ true
    → is_pending j.status ≡ true
unfolding claimable
claimable_pending now types j h = ground arith

-- What `take_job` returns, if it returns a job.
take_job-some :
    (now : ℕ) (w : Text) (j : Job) (q : Queue) {r : Queue} {k : Job}
    → find_job (has_id j.id) q.jobs ≡ some j
    → is_pending j.status ≡ true
    → take_job now w j q ≡ (r, some k)
    → (k ≡ lock_job now w j) × (find_job (has_id k.id) r.jobs ≡ some k)
take_job-some now w j q {r} {k} found waits e =
    let p : Job → Bool = λ x. has_id j.id x && is_pending x.status in
    let jobs = update_jobs p (lock_job now w) q.jobs in
    let locked : find_job (has_id j.id) jobs ≡ some (lock_job now w j) =
      find-locked now w j.id q.jobs found waits in
    by_count (count_jobs p q.jobs == 1) jobs locked e
  where
    by_count :
        (b : Bool) (jobs : List Job)
        → find_job (has_id j.id) jobs ≡ some (lock_job now w j)
        → ◌≡◌ {A = Queue × Option Job}
            (if b
              then (record q { jobs = jobs }, find_job (has_id j.id) jobs)
              else (record q { jobs = jobs }, none))
            (r, some k)
        → (k ≡ lock_job now w j) × (find_job (has_id k.id) r.jobs ≡ some k)
    by_count true jobs locked s =
        let got : find_job (has_id j.id) jobs ≡ some k = ap (λ x. x.1) s in
        let rows : jobs ≡ r.jobs = ap (λ (x : Queue × Option Job). x.0.jobs) s in
        let t : some (lock_job now w j) ≡ some k = sym locked ∙ got in
        let same : lock_job now w j ≡ k = cc in
        let id : j.id ≡ k.id = unfold lock_job in ap (λ (x : Job). x.id) same in
        (
          sym same,
          subst (λ n. find_job (has_id n) r.jobs ≡ some k) id
              (subst (λ l. find_job (has_id j.id) l ≡ some k) rows got),
        )
    by_count false jobs locked s =
        let t : ◌≡◌ {A = Option Job} none (some k) = ap (λ x. x.1) s in cc

-- What is claimed, in the terms of the query.
pub claim_next_job-query :
    (now : ℕ) (c : ClaimParams) (q : Queue) {r : Queue} {k : Job}
    → UniqueIds q.jobs
    → claim_next_job now c q ≡ ok (r, some k)
    → (j : Job) × (find_job (has_id j.id) q.jobs ≡ some j)
      × (claimable now c.types j ≡ true)
      × All (λ x. before j x ≡ true) (keep (claimable now c.types) q.jobs)
      × (k ≡ lock_job now (trim c.worker_id) j)
      × (find_job (has_id k.id) r.jobs ≡ some k)
unfolding claim_next_job
claim_next_job-query now c q {r} {k} u e =
    let (_, _, e1) = >>=-eq-ok (guard (not (is_empty (trim c.worker_id))) worker_id_required) _ e in
    by_limit (c.limit == 0) (earliest (keep (claimable now c.types) q.jobs)) refl e1
  where
    by_limit :
        (b : Bool) (o : Option Job)
        → earliest (keep (claimable now c.types) q.jobs) ≡ o
        → ◌≡◌ {A = Result (Queue × Option Job)}
            (if b then ok (q, none) else (elim o [
              | none ↦ ok (q, none)
              | some j ↦ ok (take_job now (trim c.worker_id) j q)
            ]))
            (ok (r, some k))
        → (j : Job) × (find_job (has_id j.id) q.jobs ≡ some j)
          × (claimable now c.types j ≡ true)
          × All (λ x. before j x ≡ true) (keep (claimable now c.types) q.jobs)
          × (k ≡ lock_job now (trim c.worker_id) j)
          × (find_job (has_id k.id) r.jobs ≡ some k)
    by_limit true o f s =
        let t : ◌≡◌ {A = Option Job} none (some k) =
          ap (λ (x : Queue × Option Job). x.1) (ok_injective s) in
        cc
    by_limit false none f s =
        let t : ◌≡◌ {A = Option Job} none (some k) =
          ap (λ (x : Queue × Option Job). x.1) (ok_injective s) in
        cc
    by_limit false (some j) f s =
        let known =
          All-keep (λ x. find_job (has_id x.id) q.jobs ≡ some x) (claimable now c.types) q.jobs
            (Found-All q.jobs u) in
        let (facts, first) =
          earliest-All
            (λ x. (find_job (has_id x.id) q.jobs ≡ some x) × (claimable now c.types x ≡ true))
            (keep (claimable now c.types) q.jobs)
            (All-both (λ x. find_job (has_id x.id) q.jobs ≡ some x)
              (λ x. claimable now c.types x ≡ true) (keep (claimable now c.types) q.jobs) known
              (keep-true (claimable now c.types) q.jobs))
            f in
        let (same, kept) =
          take_job-some now (trim c.worker_id) j q facts.0 (claimable_pending now c.types j facts.1)
            (ok_injective s) in
        (j, facts.0, facts.1, first, same, kept)
