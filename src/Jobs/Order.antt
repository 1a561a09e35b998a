-- ===== src/Jobs/Order.antt =====
-- Which job a worker gets, apart from the query of `claimNextJob`.
use mathlib.Core.Bool.{false}
use loanapp.Jobs.Claims.{claim_next_job-query}
use loanapp.Jobs.Validity.{UniqueIds}
use loanapp.Jobs.Queue.{
  mandate_debit, lock_job, process_webhook_event, processing, integrity_scan, ledger_reconcile,
  has_id, risk_reevaluation, find_job, collections_escalation, claim_next_job, send_notification,
  recalc_balances, Queue, pending, accrue_interest, ClaimParams, is_pending, before, of_types,
  claimable, JobStatus, JobType, type_index, Job,
}
use loanapp.Common.{
  if◌then◌else◌, trim, refl, some, inr, ==_iff, ap, inl, false≢true, Bool-cases, ◌↔◌, ◌∙◌, ◌≤◌,
  arith, true, [], keep, sym, ◌==◌, ◌⊎◌, Bool, some_of, All, ◌∷◌, ◌<◌, ◌≡◌, List, ℕ, ok,
}

abbrev pub HasType : JobType → List JobType → Type 0
HasType t [] = ⊥
HasType t (x ∷ xs) = (x ≡ t) ⊎ HasType t xs

-- The worker asked for the type, or for none in particular.
abbrev pub Asked : List JobType → JobType → Type 0
Asked types t = (types ≡ []) ⊎ HasType t types

-- A job that waits, was to run at this time at the latest, and has a type that the worker asked for.
abbrev pub Due : ℕ → List JobType → Job → Type 0
Due now types j = (j.status ≡ pending) × (j.run_at ≤ now) × Asked types j.type

-- The first was to run before the second, or at the same time and was created no later.
abbrev pub NoLater : Job → Job → Type 0
NoLater i j = (i.run_at < j.run_at) ⊎ ((i.run_at ≡ j.run_at) × (i.created_at ≤ j.created_at))

-- The inverse of `type_index`.
of_index : ℕ → JobType
of_index n =
    if n == 0
    then accrue_interest
    else if n == 1
    then recalc_balances
    else if n == 2
    then send_notification
    else if n == 3
    then collections_escalation
    else if n == 4
    then risk_reevaluation
    else if n == 5
    then ledger_reconcile
    else if n == 6
    then integrity_scan
    else if n == 7
    then process_webhook_event
    else mandate_debit

of_index-type_index : (t : JobType) → of_index (type_index t) ≡ t
unfolding of_index type_index
of_index-type_index accrue_interest = refl
of_index-type_index recalc_balances = refl
of_index-type_index send_notification = refl
of_index-type_index collections_escalation = refl
of_index-type_index risk_reevaluation = refl
of_index-type_index ledger_reconcile = refl
of_index-type_index integrity_scan = refl
of_index-type_index process_webhook_event = refl
of_index-type_index mandate_debit = refl

type_index_injective : (t u : JobType) → type_index t ≡ type_index u → t ≡ u
type_index_injective t u h = sym (of_index-type_index t) ∙ ap of_index h ∙ of_index-type_index u

HasType_iff :
    (t : JobType) (types : List JobType)
    → (some_of (λ x. type_index x == type_index t) types ≡ true) ↔ HasType t types
HasType_iff t [] = (λ h. absurd (false≢true h), λ h. absurd h)
HasType_iff t (x ∷ xs) =
    let (forth, back) = HasType_iff t xs in
    (
      λ h. elim (Bool-cases (type_index x == type_index t)) [
        | inl p ↦ inl (type_index_injective x t ((==_iff (type_index x) (type_index t)).0 p))
        | inr p ↦ inr (forth (ground arith))
      ],
      λ h. elim h [
        | inl p ↦
            let same = (==_iff (type_index x) (type_index t)).1 (ap type_index p) in ground arith
        | inr p ↦ let below = back p in ground arith
      ],
    )

of_types_iff : (types : List JobType) (j : Job) → (of_types types j ≡ true) ↔ Asked types j.type
unfolding of_types
of_types_iff [] j = (λ h. inl refl, λ h. refl)
of_types_iff (t ∷ ts) j =
    let (forth, back) = HasType_iff j.type (t ∷ ts) in
    (λ h. inr (forth h), λ h. elim h [ inl p ↦ let no : (t ∷ ts) ≡ [] = p in cc | inr p ↦ back p ])

is_pending_iff : (s : JobStatus) → (is_pending s ≡ true) ↔ (s ≡ pending)
is_pending_iff s = ground arith

claimable-Due :
    (now : ℕ) (types : List JobType) (j : Job) → (claimable now types j ≡ true) ↔ Due now types j
unfolding claimable
claimable-Due now types j = (
  λ h. (
    (is_pending_iff j.status).0 (ground arith),
    ground arith,
    (of_types_iff types j).0 (ground arith),
  ),
  λ (waits, time, asked).
      let a = (is_pending_iff j.status).1 waits in
      let b = (of_types_iff types j).1 asked in ground arith,
)

before-NoLater : (i j : Job) → before i j ≡ true → NoLater i j
before-NoLater i j h = ground arith

-- What holds of the kept elements holds of each that passes the test.
All-kept :
    (p : Job → Bool) (P : Job → Type 0) (js : List Job)
    → All P (keep p js)
    → All (λ x. p x ≡ true → P x) js
All-kept p P [] h = tt
All-kept p P (x ∷ js) h = by_test (λ k. All-kept p P js k) (p x) refl h
  where
    by_test :
        (All P (keep p js) → All (λ y. p y ≡ true → P y) js)
        → (b : Bool) → p x ≡ b
        → All P (if b then x ∷ keep p js else keep p js)
        → (p x ≡ true → P x) × All (λ y. p y ≡ true → P y) js
    by_test rest true e k = (λ _. k.0, rest k.1)
    by_test rest false e k = (λ e'. absurd (false≢true (sym e ∙ e')), rest k)

All-first :
    (now : ℕ) (types : List JobType) (j : Job) (js : List Job)
    → All (λ x. claimable now types x ≡ true → before j x ≡ true) js
    → All (λ x. Due now types x → NoLater j x) js
All-first now types j [] h = tt
All-first now types j (x ∷ js) h =
    (λ d. before-NoLater j x (h.0 ((claimable-Due now types x).1 d)), All-first now types j js h.1)

-- Where no two jobs have one id: a job that a worker claims was waiting and due, of a type that the
-- worker asked for, if it asked for any, and no such job was to run earlier, or at the same time and
-- was created earlier. It is returned as the table then has it, in processing and locked for this
-- worker at this time, and otherwise as it was.
pub claim_next_job-earliest :
    (now : ℕ) (c : ClaimParams) (q : Queue) {r : Queue} {k : Job}
    → UniqueIds q.jobs
    → claim_next_job now c q ≡ ok (r, some k)
    → (j : Job) × (find_job (has_id j.id) q.jobs ≡ some j)
      × Due now c.types j
      × All (λ x. Due now c.types x → NoLater j x) q.jobs
      × (k ≡ record j {
        status = processing;
        locked_at = some now;
        locked_by = some (trim c.worker_id);
      })
      × (find_job (has_id k.id) r.jobs ≡ some k)
claim_next_job-earliest now c q {r} {k} u e =
    let (j, known, found, first_one, same, kept) =
      claim_next_job-query now c q {r = r} {k = k} u e in
    (
      j,
      known,
      (claimable-Due now c.types j).0 found,
      All-first now c.types j q.jobs
          (All-kept (claimable now c.types) (λ x. before j x ≡ true) q.jobs first_one),
      unfold lock_job in same,
      kept,
    )
