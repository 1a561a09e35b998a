-- ===== src/Delinquency/Scenarios.antt =====
-- A loan with two late items and one to come, at which the theorems apply.
use loanapp.Delinquency.Figures.{recalc_delinquency_lem, Active}
use loanapp.Delinquency.Overdue.{EarliestDue, overdue_items}
use loanapp.Delinquency.Repeats.{recalc_delinquency_twice}
use loanapp.Loan.Status.{
  Status, includes, assert_valid_transition, status_index, status_eq, disbursed,
}
use loanapp.Loan.Roles.{
  is_super_admin, normalize_role, has_key, role_matrix, role_can_transition,
  assert_role_can_transition, assert_transition, system, ops,
}
use loanapp.Delinquency.Engine.{
  ms_per_day, should_move, refresh_item, remaining_amount, add_item, scan, current,
  compute_item_overdue, Delinquency, compute_delinquency, overdue, ScheduleItem, recalc_delinquency,
  LoanRows, LoanState,
}
use loanapp.Common.{
  refl, ltb, if◌then◌else◌, ◌/◌, ◌-◌, ◌⊎◌, sum_by, ok, [], none, ◌∷◌, false, some, Text, ℕ, ◌≡◌,
  codes,
}

abbrev item : Text → ℕ → ℕ → ScheduleItem
item id due paid = record {
  id = id;
  due_date = due;
  total_due = 130;
  total_paid = paid;
  is_overdue = false;
  overdue_since = none;
}

abbrev late_loan : LoanState
late_loan = record {
  status = disbursed;
  delinquency = record { days_past_due = 0; overdue_amount = 0; status = current };
  calculated_at = none;
}

abbrev late_rows : LoanRows
late_rows = record {
  loan = some late_loan;
  items =
      item (codes "i1") 100 130
      ∷ item (codes "i2") 200 30
      ∷ item (codes "i3") 300 0
      ∷ item (codes "i4") 999999999 0
      ∷ [];
  history = [];
}

abbrev this_time : ℕ
this_time = 200000000

recalc_run :
    (r : LoanRows × Delinquency) × (recalc_delinquency this_time system none late_rows ≡ ok r)
unfolding recalc_delinquency compute_delinquency compute_item_overdue scan add_item refresh_item
    should_move status_eq status_index assert_transition assert_valid_transition includes
    assert_role_can_transition role_can_transition role_matrix has_key normalize_role is_super_admin
recalc_run = (_, refl)

figures : recalc_run.0.1 ≡ record { days_past_due = 2; overdue_amount = 230; status = overdue }
unfolding recalc_run
figures = refl

recalc_delinquency_lem_example :
    (b' : LoanRows) × (d : Delinquency) × (l' : LoanState) × (recalc_delinquency this_time system
        none late_rows
      ≡ ok (b', d))
    × (b'.loan ≡ some l')
    × (d.overdue_amount ≡ sum_by remaining_amount (overdue_items this_time late_rows.items))
    × (((d.days_past_due ≡ 0) × (overdue_items this_time late_rows.items ≡ []))
        ⊎ ((e : ℕ) × (d.days_past_due ≡ (this_time - e) / ms_per_day)
            × EarliestDue e (overdue_items this_time late_rows.items)))
    × (Active late_loan.status
        → l'.status ≡ (if ltb 0 d.overdue_amount then Status.overdue else disbursed))
    × ((Active late_loan.status → ⊥) → l'.status ≡ late_loan.status)
recalc_delinquency_lem_example =
    recalc_delinquency_lem this_time none late_rows {l = late_loan} refl

recalc_delinquency_twice_example :
    recalc_delinquency this_time ops none recalc_run.0.0 ≡ ok recalc_run.0
recalc_delinquency_twice_example =
    recalc_delinquency_twice this_time system ops none none late_rows {b' = recalc_run.0.0}
      {d = recalc_run.0.1} recalc_run.1
