-- ===== src/Accrual/Interest.antt =====
-- `accrueInterest` of
-- apps/api/src/modules/admin-loan-applications/admin-loan-applications.service.ts. The amount that
-- decimal.js makes of a principal, a rate and a number of days is a parameter.
use loanapp.Ledger.Accounts.{credit, interest_income, debit, interest_receivable}
use loanapp.Accrual.Balances.{get_balances}
use loanapp.Delinquency.Engine.{ms_per_day}
use loanapp.Ledger.Entries.{post_entry, accrual, Ledger, EntryInput}
use loanapp.Loan.Status.{disbursed, status_eq, Status}
use loanapp.Treasury.Pools.{or_else}
use loanapp.Loan.Roles.{risk_manager, super_admin, ops, Role}
use loanapp.Disbursement.Records.{Principal}
use loanapp.Common.{
  [], ◌∷◌, loan_not_found, pos, err, ◌>>=◌, ◌||◌, none, ◌==◌, not_disbursed, some,
  role_cannot_accrue, ◌++◌, rate_not_set, accrual_disabled, guard, codes, ◌*◌, ◌>>◌, if◌then◌else◌,
  false, Result, ◌/◌, true, ltb, ◌-◌, Option, Bool, ℕ, Text, ok,
}

-- The part of a `TenantLoanApplication` row that an accrual reads and writes.
pub record AccrualLoan : Type 0 where
  pub id : Text
  pub currency : Text
  pub status : Status
  pub accrual_paused : Bool
  pub annual_rate : Option ℕ
  pub override_rate : Option ℕ
  pub last_accrued_at : Option ℕ
  pub updated_at : ℕ

pub record AccrualBook : Type 0 where
  pub loan : Option AccrualLoan
  pub ledger : Ledger

-- `AccrueInterestDto`: the date as a text, and its midnight.
pub record AccrualInput : Type 0 where
  pub through_date : Text
  pub through : ℕ

abbrev pub may_accrue : Role → Bool
may_accrue ops = true
may_accrue super_admin = true
may_accrue risk_manager = true
may_accrue _ = false

abbrev pub day_of : ℕ → ℕ
day_of t = t / ms_per_day * ms_per_day

-- `days`, where it is not negative.
abbrev pub days_to : AccrualLoan → ℕ → ℕ
days_to l through = (through - day_of (or_else l.last_accrued_at l.updated_at)) / ms_per_day

abbrev pub has_rate : AccrualLoan → Bool
has_rate l = ltb 0 (or_else l.annual_rate 0)

abbrev pub effective_rate : AccrualLoan → ℕ
effective_rate l = or_else l.override_rate (or_else l.annual_rate 0)

-- The amount to accrue, 0 where the call returns early.
unfoldable pub amount_to_accrue :
    (ℕ → ℕ → ℕ → ℕ) → Principal → AccrualInput → AccrualLoan → Ledger → Result ℕ
amount_to_accrue interest p i l g = if l.accrual_paused then ok 0 else (do
  guard (has_rate l) rate_not_set
  let principal = (get_balances p.tenant l.id g).principal_outstanding
  let days = days_to l i.through
  ok (if principal == 0 || days == 0 then 0 else interest principal (effective_rate l) days))

unfoldable pub accrual_entry : Principal → AccrualInput → AccrualLoan → ℕ → EntryInput
accrual_entry p i l n = record {
  tenant = p.tenant;
  occurred_at = i.through;
  type = accrual;
  key = codes "accrual:" ++ (l.id ++ (codes ":" ++ i.through_date));
  reference_type = codes "LoanApplication";
  reference_id = l.id;
  currency = some l.currency;
  created_by = some p.admin_id;
  actor_role = some p.role;
  memo = some (codes "Interest accrual through " ++ i.through_date);
  lines =
      record { account = interest_receivable; direction = debit; amount = pos n }
      ∷ record { account = interest_income; direction = credit; amount = pos n }
      ∷ [];
}

unfoldable pub accrue_loan :
    (ℕ → ℕ)
    → (ℕ → ℕ → ℕ → ℕ)
    → Text
    → Principal
    → AccrualInput
    → AccrualLoan
    → AccrualBook
    → Result AccrualBook
accrue_loan column interest fresh p i l b = do
  guard (status_eq l.status disbursed) not_disbursed
  n ← amount_to_accrue interest p i l b.ledger
  if n == 0 then ok b else (do
    posted ← post_entry column fresh (accrual_entry p i l n) b.ledger
    ok (record { loan = some (record l { last_accrued_at = some i.through }); ledger = posted.0 }))

-- `accrueInterest`, for the tenant's flag INTEREST_ACCRUAL.
unfoldable pub accrue_interest :
    (ℕ → ℕ)
    → (ℕ → ℕ → ℕ → ℕ)
    → Bool
    → Text
    → Principal
    → AccrualInput
    → AccrualBook
    → Result AccrualBook
accrue_interest column interest enabled fresh p i b = do
  guard enabled accrual_disabled
  guard (may_accrue p.role) role_cannot_accrue
  elim b.loan [ none ↦ err loan_not_found | some l ↦ accrue_loan column interest fresh p i l b ]
