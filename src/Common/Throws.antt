-- ===== src/Common/Throws.antt =====
-- The exceptions that the modelled code throws, and the monad of calls that may throw.
use mathlib.Core.Path.{◌≡◌, refl, ap}
use mathlib.Core.Logic.{◌⊎◌, inl, inr}
use mathlib.Core.Bool.{Bool, true, false, not}

-- One constructor for each `throw` of the modelled handlers, named for its message.
pub data Error : Type 0 where
  -- apps/api/src/modules/loan-applications/loan-application-status-transition.ts and ...-rbac.ts
  invalid_transition role_cannot_transition : Error
  -- apps/api/src/common/ledger/tenant-ledger.service.ts
  key_required lines_required role_cannot_post role_cannot_reverse : Error
  amount_not_positive unbalanced mixed_currencies two_entries_required entry_not_found : Error
  -- apps/api/src/common/tenant/assert-tenant-match.ts, and a line without an account
  tenant_mismatch account_missing : Error
  -- apps/api/src/loan/repayment/repayment.service.ts and apps/api/src/common/finance/invariants.ts
  repayment_not_positive loan_not_found other_tenant loan_not_repayable : Error
  no_schedule_items nothing_allocated repayment_exists loan_cannot_close : Error
  -- apps/api/src/modules/loan-products/loan-products.service.ts
  product_not_found product_archived principal_outside_limits tenor_outside_limits : Error
  -- apps/api/src/common/idempotency/tenant-idempotency.service.ts
  idempotency_key_required request_in_progress : Error
  -- apps/api/src/common/jobs/job-queue.service.ts
  worker_id_required tenant_id_required invalid_tenant_id unique_violation : Error
  -- apps/api/src/treasury/treasury.service.ts and treasury/exposure/treasury-exposure.guard.ts
  no_active_pool pool_insufficient pool_max_deployed pool_utilization : Error
  -- apps/api/src/risk/risk.service.ts and apps/api/src/modules/fraud/hold-enforcement.service.ts
  risk_declined risk_review risk_hold borrower_restricted : Error
  -- apps/api/src/modules/admin-loan-applications/admin-loan-applications.service.ts
  auto_disburse_disabled not_ops not_ready critical_alert key_of_other_disbursement : Error
  finalized_with_other_method duplicate_disbursement disbursement_not_found : Error
  not_failed not_success not_disbursed schedule_exists not_credit_officer not_approved : Error
  accrual_disabled role_cannot_accrue rate_not_set : Error
  -- apps/api/src/modules/reconciliation/reconciliation.service.ts
  record_not_found batch_is_closed record_is_terminal role_cannot_write_off : Error
  invalid_reconciliation : Error

-- The outcome of a call: what it threw, or what it returned.
pub data Result {ℓ} (T : Type ℓ) : Type ℓ where
  err : Error → Result T
  ok : T → Result T

-- `if (!b) throw thrown`
abbrev pub guard : Bool → Error → Result (Unit {0})
guard false thrown = err thrown
guard true _ = ok tt

-- A statement and what follows it, which runs unless the statement throws.
infixl 5 ◌>>=◌
abbrev pub ◌>>=◌ {κ ℓ} : {T : Type κ} {S : Type ℓ} → Result T → (T → Result S) → Result S
err thrown >>= rest = err thrown
ok result >>= rest = rest result

-- Inversion of a successful bind.
pub >>=-eq-ok {κ ℓ} :
    {T : Type κ} {S : Type ℓ} (m : Result T) (rest : T → Result S) {s : S}
    → (m >>= rest) ≡ ok s
    → (result : T) × (m ≡ ok result) × (rest result ≡ ok s)
>>=-eq-ok (err thrown) rest e = cc
>>=-eq-ok (ok result) rest e = (result, refl, e)

infixl 5 ◌>>◌
abbrev pub ◌>>◌ {ℓ} : {S : Type ℓ} → Result (Unit {0}) → Result S → Result S
check >> rest = check >>= λ _. rest

pub Result-cases {ℓ} :
    {A : Type ℓ} (r : Result A) → ((e : Error) × (r ≡ err e)) ⊎ ((a : A) × (r ≡ ok a))
Result-cases (ok a) = inr (a, refl)
Result-cases (err e) = inl (e, refl)

pub guard_ok : (b : Bool) (e : Error) {u : Unit {0}} → guard b e ≡ ok u → b ≡ true
guard_ok true e h = refl
guard_ok false e h = cc

pub guard-not_ok : (b : Bool) (e : Error) {u : Unit {0}} → guard (not b) e ≡ ok u → b ≡ false
guard-not_ok true e h = cc
guard-not_ok false e h = refl

pub ok_injective {ℓ} : {A : Type ℓ} {x y : A} → ok x ≡ ok y → x ≡ y
ok_injective {A} {x} {y} h = ap unwrap h
  where
    unwrap : Result A → A
    unwrap (ok a) = a
    unwrap (err e) = x
