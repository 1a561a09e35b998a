-- ===== src/Schedule/Scenarios.antt =====
-- A loan of two months, at which the theorems apply.
use loanapp.Schedule.Regeneration.{Unpaid, generate_schedule_v2_lem}
use loanapp.Schedule.Totals.{generate_schedule-AddsUp, AddsUp}
use loanapp.Schedule.Amortization.{
  Installment, update_last, correct_fees, correct_principal, flat_left, interest_of, build, flat,
  lines, installment_count, monthly, Arithmetic, ScheduleInput, generate_schedule,
}
use loanapp.Schedule.Handler.{
  frequency_of, term_of, scheduled, schedule_input, start_of, ScheduleBook, generate_schedule_v2,
  ScheduledLoan,
}
use loanapp.Loan.Status.{status_index, disbursed, status_eq}
use loanapp.Common.{
  negsuc, refl, ok, map, ◌+ℤ◌, neg, diff, All, length, ◌⊎◌, [], true, ◌∷◌, ◌/◌, ◌≡◌, arith, none,
  ◌+◌, pos, some, ◌*◌,
}

-- Quotients rounded half up, 30 days to a period.
abbrev arithmetic : Arithmetic
arithmetic = record {
  divide = λ a n. (2 * a + n) / (2 * n);
  period_interest = λ bps periods p. p * bps / (10000 * periods);
  flat_interest = λ bps days p. p * bps * days / 3650000;
  add_period = λ start frequency n. start + 30 * n;
}

abbrev two_months : ScheduleInput
two_months = record {
  principal = 10001;
  annual_bps = 1200;
  start_date = 5;
  frequency = monthly;
  term_in_days = 60;
  method = flat;
  fees_total = 7;
}

generate_schedule-AddsUp_example :
    AddsUp arithmetic two_months (generate_schedule arithmetic two_months)
generate_schedule-AddsUp_example =
    generate_schedule-AddsUp arithmetic two_months (omega arith) (omega arith)

abbrev paid_loan : ScheduledLoan
paid_loan = record {
  status = disbursed;
  disbursed_at = some 5;
  disbursed_amount = some 10001;
  approved_amount = none;
  requested_amount = 20000;
  annual_bps = some 1200;
  frequency = none;
  term_in_days = 0;
  tenor_months = 2;
  principal = some 10001;
  outstanding_principal = 4000;
  outstanding_interest = pos 50;
  outstanding_fees = 0;
  outstanding_total = pos 4050;
  next_due_date = some 65;
}

abbrev paid_book : ScheduleBook
paid_book = record {
  loan = some paid_loan;
  rows =
      record {
        due = record {
          number = 1;
          due_date = 35;
          principal_due = 6001;
          interest_due = pos 50;
          fees_due = 0;
          total_due = pos 6051;
        };
        principal_paid = 6001;
        interest_paid = 50;
        fees_paid = 0;
        total_paid = 6051;
      }
      ∷ [];
}

forced_run : (b : ScheduleBook) × (generate_schedule_v2 arithmetic none true paid_book ≡ ok b)
unfolding generate_schedule_v2 start_of schedule_input scheduled generate_schedule installment_count
    lines build interest_of flat_left correct_principal correct_fees update_last diff neg ◌+ℤ◌
    status_eq status_index
forced_run = (_, refl)

generate_schedule_v2_lem_example :
    (status_eq paid_loan.status disbursed ≡ true)
    × ((true ≡ true) ⊎ (paid_book.rows ≡ []))
    × ((l' : ScheduledLoan) × (forced_run.0.loan ≡ some l')
        × (l'.outstanding_principal ≡ 10001)
        × (l'.outstanding_fees ≡ 0))
    × (length forced_run.0.rows ≡ installment_count (term_of paid_loan) (frequency_of paid_loan))
    × All Unpaid forced_run.0.rows
generate_schedule_v2_lem_example =
    generate_schedule_v2_lem arithmetic none true paid_book {l = paid_loan} {b' = forced_run.0} refl
      (omega arith) forced_run.1

-- A flat interest of 3 cents over 5 installments ends in a part below zero.
abbrev small_flat : ScheduleInput
small_flat = record {
  principal = 500;
  annual_bps = 52;
  start_date = 5;
  frequency = monthly;
  term_in_days = 150;
  method = flat;
  fees_total = 0;
}

negative_part :
    map
      (λ (x : Installment). x.interest_due)
      (generate_schedule (record arithmetic { flat_interest = λ bps days p. 3 }) small_flat)
    ≡ pos 1 ∷ pos 1 ∷ pos 1 ∷ pos 1 ∷ negsuc 0 ∷ []
unfolding generate_schedule installment_count lines build interest_of flat_left correct_principal
    correct_fees update_last diff neg ◌+ℤ◌
negative_part = refl
