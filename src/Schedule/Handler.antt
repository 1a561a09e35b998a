-- ===== src/Schedule/Handler.antt =====
-- `generateScheduleV2` of
-- apps/api/src/modules/admin-loan-applications/admin-loan-applications.service.ts: the transaction
-- that replaces the schedule of a loan.
use loanapp.Schedule.Sums.{interest_sum}
use loanapp.Treasury.Pools.{or_else}
use loanapp.Loan.Status.{disbursed, status_eq, Status}
use loanapp.Schedule.Amortization.{
  generate_schedule, fees_sum, reducing_balance, monthly, ScheduleInput, principal_sum,
  InterestMethod, Installment, Arithmetic, Frequency,
}
use loanapp.Common.{
  map, schedule_exists, ◌||◌, ◌+ℤ◌, guard, pos, ◌>>=◌, ◌>>◌, ◌*◌, false, [], loan_not_found,
  not_disbursed, max, true, err, ◌∷◌, ltb, ℤ, none, some, Bool, if◌then◌else◌, List, Option, ℕ,
  Result, ok,
}

-- The part of a `TenantLoanApplication` row that the transaction reads and writes.
pub record ScheduledLoan : Type 0 where
  pub status : Status
  pub disbursed_at : Option ℕ
  pub disbursed_amount : Option ℕ
  pub approved_amount : Option ℕ
  pub requested_amount : ℕ
  pub annual_bps : Option ℕ
  pub frequency : Option Frequency
  pub term_in_days : ℕ
  pub tenor_months : ℕ
  pub principal : Option ℕ
  pub outstanding_principal : ℕ
  pub outstanding_interest : ℤ
  pub outstanding_fees : ℕ
  pub outstanding_total : ℤ
  pub next_due_date : Option ℕ

-- A row of `LoanRepaymentScheduleItem`, with what has been paid of it.
pub record ScheduleRow : Type 0 where
  pub due : Installment
  pub principal_paid : ℕ
  pub interest_paid : ℕ
  pub fees_paid : ℕ
  pub total_paid : ℕ

pub record ScheduleBook : Type 0 where
  pub loan : Option ScheduledLoan
  pub rows : List ScheduleRow

-- `row.disbursedAmount ?? row.approvedAmount ?? row.requestedAmount`
abbrev pub principal_amount : ScheduledLoan → ℕ
principal_amount l = or_else l.disbursed_amount (or_else l.approved_amount l.requested_amount)

abbrev pub term_of : ScheduledLoan → ℕ
term_of l = if ltb 0 l.term_in_days then l.term_in_days else max 30 (l.tenor_months * 30)

abbrev pub frequency_of : ScheduledLoan → Frequency
frequency_of l = elim l.frequency [ none ↦ monthly | some f ↦ f ]

abbrev pub method_or_default : Option InterestMethod → InterestMethod
method_or_default none = reducing_balance
method_or_default (some m) = m

unfoldable pub schedule_input : ScheduledLoan → ℕ → Option InterestMethod → ScheduleInput
schedule_input l start method = record {
  principal = principal_amount l;
  annual_bps = or_else l.annual_bps 0;
  start_date = start;
  frequency = frequency_of l;
  term_in_days = term_of l;
  method = method_or_default method;
  fees_total = 0;
}

abbrev pub unpaid_row : Installment → ScheduleRow
unpaid_row x = record {
  due = x;
  principal_paid = 0;
  interest_paid = 0;
  fees_paid = 0;
  total_paid = 0;
}

abbrev pub first_due : List Installment → Option ℕ
first_due [] = none
first_due (x ∷ xs) = some x.due_date

unfoldable pub scheduled : List Installment → ScheduledLoan → ScheduledLoan
scheduled xs l = record l {
  principal = some (principal_amount l);
  outstanding_principal = principal_sum xs;
  outstanding_interest = interest_sum xs;
  outstanding_fees = fees_sum xs;
  outstanding_total = pos (principal_sum xs) +ℤ interest_sum xs +ℤ pos (fees_sum xs);
  next_due_date = first_due xs;
}

abbrev pub no_rows : List ScheduleRow → Bool
no_rows [] = true
no_rows (r ∷ rs) = false

-- `row.status !== DISBURSED || !row.disbursedAt`, and the date.
unfoldable pub start_of : ScheduledLoan → Result ℕ
start_of l = elim l.disbursed_at [
  | none ↦ err not_disbursed
  | some t ↦ (do guard (status_eq l.status disbursed) not_disbursed; ok t)
]

unfoldable pub generate_schedule_v2 :
    Arithmetic → Option InterestMethod → Bool → ScheduleBook → Result ScheduleBook
generate_schedule_v2 m method force b = elim b.loan [
  | none ↦ err loan_not_found
  | some l ↦ do
    start ← start_of l
    guard (force || no_rows b.rows) schedule_exists
    let xs = generate_schedule m (schedule_input l start method)
    ok (record { loan = some (scheduled xs l); rows = map unpaid_row xs })
]
