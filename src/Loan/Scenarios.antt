-- ===== src/Loan/Scenarios.antt =====
-- Histories of a loan at which the theorems of Permissions and Lifecycle apply.
use loanapp.Common.{◌≡◌, refl, [], ◌∷◌, true, arith, List}
use loanapp.Loan.Status.{
  Status, submitted, under_review, approved, ready_for_disbursement, disbursed,
}
use loanapp.Loan.Roles.{is_super_admin, credit_officer, risk_manager, ops, assert_transition}
use loanapp.Loan.Lifecycle.{
  guarded, Mover, Trace, here, next, stage, duty_done, within_duties, separation_of_duties,
}

abbrev moves : List (Mover × Status)
moves =
    (guarded ops, disbursed)
    ∷ (guarded credit_officer, ready_for_disbursement)
    ∷ (guarded risk_manager, approved)
    ∷ (guarded credit_officer, under_review)
    ∷ []

funding : Trace submitted disbursed moves
unfolding assert_transition
funding =
    next
      (next (next (next here credit_officer under_review refl) risk_manager approved refl)
        credit_officer ready_for_disbursement refl)
      ops disbursed refl

separation_of_duties_example : duty_done 2 moves ≡ true
unfolding stage within_duties is_super_admin
separation_of_duties_example = separation_of_duties 2 funding (omega arith) (omega arith) refl
