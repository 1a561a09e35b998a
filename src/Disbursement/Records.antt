-- ===== src/Disbursement/Records.antt =====
-- The rows that a disbursement reads and writes:
-- apps/api/src/modules/admin-loan-applications/admin-loan-applications.service.ts. Amounts are
-- cents, times milliseconds. A provider's reference, the mock's, is made of the identifier and the
-- time, and is left out.
use loanapp.Treasury.Allocations.{Capital, CapitalAllocation}
use loanapp.Risk.Gate.{RiskState}
use loanapp.Loan.Roles.{Role}
use loanapp.Treasury.Pools.{Pool, or_else}
use loanapp.Common.{
  ◌+◌, [], ◌&&◌, text_eq, if◌then◌else◌, ◌∷◌, false, true, some, List, trimmed_or_null, Text, none,
  Option, ℕ, Bool,
}
use loanapp.Loan.Status.{Status}

-- `TenantDisbursementMethod`
pub data Method : Type 0 where
  bank_transfer wallet cash manual : Method

unfoldable pub method_eq : Method → Method → Bool
method_eq bank_transfer bank_transfer = true
method_eq wallet wallet = true
method_eq cash cash = true
method_eq manual manual = true
method_eq _ _ = false

-- `TenantDisbursementStatus`
pub data DisbursementStatus : Type 0 where
  pending processing success failed reversed : DisbursementStatus

-- A row of `TenantDisbursement`.
pub record Disbursement : Type 0 where
  pub id : Text
  pub loan_id : Text
  pub key : Text
  pub amount : ℕ
  pub currency : Text
  pub method : Method
  pub status : DisbursementStatus
  pub provider : Option Text
  pub initiated_by : Option Text
  pub processed_at : Option ℕ
  pub disbursed_at : Option ℕ
  pub failure_reason : Option Text

-- A row of `TenantDisbursementStatusHistory`.
pub record DisbursementMove : Type 0 where
  pub loan_id : Text
  pub disbursement_id : Text
  pub from : Option DisbursementStatus
  pub to : DisbursementStatus
  pub note : Option Text
  pub actor_id : Option Text

-- The part of a `TenantLoanApplication` row that a disbursement reads and writes.
pub record Application : Type 0 where
  pub id : Text
  pub status : Status
  pub currency : Text
  pub phone : Text
  pub approved_amount : Option ℕ
  pub requested_amount : ℕ
  pub disbursed_amount : Option ℕ
  pub disbursed_at : Option ℕ

-- A row of `LoanApplicationStatusHistory`; the amount and the currency in its note are left out.
pub record StatusMove : Type 0 where
  pub from : Status
  pub to : Status
  pub note : Text
  pub changed_by : Text

-- What the transaction tells the other services. `TREASURY.MOVE` is told with the allocation, its
-- pool, the loan and the amount.
pub data Notice : Type 0 where
  transition_audited status_notified : Text → Status → Status → Notice
  complete_audited failed_audited completed_event disbursed_notified : Text → Notice
  behavior_incremented : Text → ℕ → Notice
  treasury_move_audited : Text → Text → Text → ℕ → Notice

-- The rows of one loan and of its tenant: the application with the id asked for, the tenant's
-- disbursements, the loan's risk state, the borrower's hold and the open critical alert, the active
-- pools by age, the allocations of the other loans, and the loan's own with the ledger.
pub record Book : Type 0 where
  pub application : Option Application
  pub disbursements : List Disbursement
  pub risk : RiskState
  pub borrower_held : Bool
  pub critical_alert : Bool
  pub pools : List Pool
  pub other_allocations : List CapitalAllocation
  pub capital : Capital
  pub history : List StatusMove
  pub moves : List DisbursementMove
  pub effects : List Notice

-- `TenantAdminPrincipal`
pub record Principal : Type 0 where
  pub tenant : Text
  pub admin_id : Text
  pub role : Role

-- `DisburseLoanNowDto`
pub record DisburseInput : Type 0 where
  pub loan_id : Text
  pub method : Option Method
  pub idempotency_key : Option Text
  pub note : Option Text
  pub force_fail : Bool

-- The clock, and the identifiers that the database gives to the new rows.
pub record NewIds : Type 0 where
  pub now : ℕ
  pub disbursement_id : Text
  pub entry_id : Text
  pub allocation_id : Text
  pub capital_entry_id : Text

-- `row.approvedAmount ?? row.requestedAmount`
abbrev pub amount_of : Application → ℕ
amount_of a = or_else a.approved_amount a.requested_amount

abbrev pub method_of : DisburseInput → Method
method_of i = elim i.method [ none ↦ bank_transfer | some m ↦ m ]

abbrev pub is_success : DisbursementStatus → Bool
is_success success = true
is_success _ = false

abbrev pub is_failed : DisbursementStatus → Bool
is_failed failed = true
is_failed _ = false

-- `findUnique({ where: { tenantId_idempotencyKey } })`
unfoldable pub find_by_key : Text → List Disbursement → Option Disbursement
find_by_key key [] = none
find_by_key key (d ∷ ds) = if text_eq d.key key then some d else find_by_key key ds

unfoldable pub find_by_loan : Text → List Disbursement → Option Disbursement
find_by_loan loan [] = none
find_by_loan loan (d ∷ ds) = if text_eq d.loan_id loan then some d else find_by_loan loan ds

unfoldable pub find_by_id : Text → List Disbursement → Option Disbursement
find_by_id id [] = none
find_by_id id (d ∷ ds) = if text_eq d.id id then some d else find_by_id id ds

-- `update({ where: { id }, data })`
unfoldable pub update_by_id :
    Text → (Disbursement → Disbursement) → List Disbursement → List Disbursement
update_by_id id f [] = []
update_by_id id f (d ∷ ds) = if text_eq d.id id then f d ∷ ds else d ∷ update_by_id id f ds

unfoldable pub count_success : Text → List Disbursement → ℕ
count_success loan [] = 0
count_success loan (d ∷ ds) =
    if text_eq d.loan_id loan && is_success d.status
    then count_success loan ds + 1
    else count_success loan ds

-- `writeDisbursementHistory`
unfoldable pub disbursement_move :
    Disbursement
    → Option DisbursementStatus
    → DisbursementStatus
    → Option Text
    → Text
    → DisbursementMove
disbursement_move d from to note admin = record {
  loan_id = d.loan_id;
  disbursement_id = d.id;
  from = from;
  to = to;
  note = trimmed_or_null note;
  actor_id = trimmed_or_null (some admin);
}
