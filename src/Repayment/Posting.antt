-- ===== src/Repayment/Posting.antt =====
-- The transaction of `RepaymentService.postRepayment`, in
-- apps/api/src/loan/repayment/repayment.service.ts, with the guards of
-- apps/api/src/common/finance/invariants.ts and apps/api/src/common/tenancy/tenant-guard.ts.
use loanapp.Loan.Roles.{Role}
use loanapp.Ledger.Entries.{Ledger, Line}
use loanapp.Treasury.Allocations.{cents, CapitalAllocation}
use loanapp.Ledger.Accounts.{
  suspense, loan_principal_receivable, interest_receivable, credit, fees_receivable, debit,
  bank_clearing, cash_on_hand, Code,
}
use loanapp.Common.{
  ltb, text_eq, ◌==◌, ◌&&◌, false, if◌then◌else◌, [], ◌∷◌, ℤ, true, not, Option, Bool, List, ℕ,
  Text,
}
use loanapp.Loan.Status.{Status}
use loanapp.Repayment.Allocation.{
  overdue, is_paid_status, AllocationItem, Allocated, ItemStatus, Update, Item,
}

-- `LoanRepaymentChannel`
pub data Channel : Type 0 where
  manual bank_transfer card ussd cash : Channel

-- A row of `LoanRepaymentScheduleItem`.
pub record Row : Type 0 where
  pub item : Item
  pub status : ItemStatus
  pub paid_at : Option ℕ

-- The part of a `TenantLoanApplication` row that a repayment reads and writes.
pub record LoanRow : Type 0 where
  pub id : Text
  pub tenant : Text
  pub status : Status
  pub currency : Text
  pub phone : Text
  pub outstanding_principal : ℕ
  pub outstanding_interest : ℕ
  pub outstanding_fees : ℕ
  pub outstanding_total : ℕ
  pub next_due_date : Option ℕ
  pub fully_repaid_at : Option ℕ

-- A row of `LoanRepayment`.
pub record Repayment : Type 0 where
  pub id : Text
  pub key : Text
  pub amount : ℕ
  pub currency : Text
  pub posted_at : ℕ
  pub reference : Option Text
  pub channel : Channel
  pub created_by : Option Text
  pub allocations : List AllocationItem

-- A row of `LoanApplicationStatusHistory`.
pub record HistoryRow : Type 0 where
  pub from : Status
  pub to : Status
  pub note : Text
  pub changed_by : Option Text

-- What the transaction tells the other services, in this order.
pub data Effect : Type 0 where
  repayment_audited : Option Text → Role → Text → ℕ → ℕ → ℕ → ℕ → Status → Effect
  repayment_notified : Text → ℕ → Effect
  behavior_incremented : Text → ℕ → ℕ → Effect
  repayment_posted_event : Text → ℕ → Channel → Effect

-- The rows that the transaction reads and writes: those of the loan that it has locked, the
-- schedule by due date and installment, the tenant's repayments, ledger, and the loan's capital.
pub record LoanBook : Type 0 where
  pub loan : Option LoanRow
  pub rows : List Row
  pub repayments : List Repayment
  pub capital : Option CapitalAllocation
  pub ledger : Ledger
  pub history : List HistoryRow
  pub effects : List Effect

-- `PostRepaymentInput` once the defaults and the key are filled in, its amount rounded to cents.
pub record PostInput : Type 0 where
  pub tenant : Text
  pub loan_id : Text
  pub amount : ℤ
  pub posted_at : ℕ
  pub channel : Channel
  pub reference : Option Text
  pub key : Text
  pub actor_id : Option Text
  pub role : Role

-- The clock, and the identifiers that the database gives to the new rows.
pub record Fresh : Type 0 where
  pub today : ℕ
  pub repayment_id : Text
  pub entry_id : Text
  pub capital_entry_id : Text

abbrev pub is_overdue_status : ItemStatus → Bool
is_overdue_status overdue = true
is_overdue_status _ = false

abbrev pub unpaid : Row → Bool
unpaid r = not (is_paid_status r.status)

-- The first `updateMany`: what is not paid and past its due date is overdue.
unfoldable pub mark_overdue : ℕ → List Row → List Row
mark_overdue today [] = []
mark_overdue today (r ∷ rows) =
    (if unpaid r && ltb r.item.due_date today then record r { status = overdue } else r)
    ∷ mark_overdue today rows

unfoldable pub updated : Update → Row → Row
updated u r = record {
  item = record (r.item) {
    principal_paid = u.principal_paid;
    interest_paid = u.interest_paid;
    fees_paid = u.fees_paid;
    total_paid = u.total_paid;
  };
  status = u.status;
  paid_at = u.paid_at;
}

-- `loanRepaymentScheduleItem.update({ where: { id } })`
unfoldable pub update_row : Update → List Row → List Row
update_row u [] = []
update_row u (r ∷ rows) =
    if text_eq r.item.id u.id then updated u r ∷ rows else r ∷ update_row u rows

unfoldable pub apply_updates : List Update → List Row → List Row
apply_updates [] rows = rows
apply_updates (u ∷ us) rows = apply_updates us (update_row u rows)

abbrev pub credit_if : Code → ℕ → List Line → List Line
credit_if code n rest =
    if n == 0 then rest else record { account = code; direction = credit; amount = cents n } ∷ rest

abbrev pub receiving_account : Channel → Code
receiving_account cash = cash_on_hand
receiving_account _ = bank_clearing

-- The ledger lines of a repayment: what was allocated is debited, and the fees, the interest, the
-- principal and the amount left are credited, each unless it is zero.
unfoldable pub repayment_lines : Channel → ℕ → Allocated → List Line
repayment_lines channel posted a =
    record { account = receiving_account channel; direction = debit; amount = cents posted }
    ∷ credit_if fees_receivable a.fees (
        credit_if interest_receivable a.interest
          (credit_if loan_principal_receivable a.principal (credit_if suspense a.amount_left [])))
