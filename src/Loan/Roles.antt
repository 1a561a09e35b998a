-- ===== src/Loan/Roles.antt =====
-- Who may make a transition:
-- apps/api/src/modules/loan-applications/loan-application-transition-rbac.ts.
use loanapp.Common.{
  Bool, true, false, ◌&&◌, ◌||◌, List, [], ◌∷◌, Result, ◌>>◌, guard, role_cannot_transition,
}
use loanapp.Loan.Status.{
  Status, submitted, under_review, requested_documents, approved, ready_for_disbursement, disbursed,
  overdue, written_off, settled, repaid, defaulted, rejected, status_eq, assert_valid_transition,
}

pub data Role : Type 0 where
  credit_officer risk_manager ops collections system super_admin tenant_admin : Role

-- `transitionKey(from, to)`: the text `from->to`, which determines both statuses.
abbrev pub transition_key : Status → Status → Status × Status
transition_key from to = (from, to)

-- `ROLE_MATRIX`
unfoldable pub role_matrix : Role → List (Status × Status)
role_matrix credit_officer =
    transition_key submitted under_review
    ∷ transition_key submitted rejected
    ∷ transition_key under_review requested_documents
    ∷ transition_key requested_documents under_review
    ∷ transition_key approved ready_for_disbursement
    ∷ []
role_matrix risk_manager =
    transition_key under_review approved ∷ transition_key under_review rejected ∷ []
role_matrix ops =
    transition_key ready_for_disbursement disbursed ∷ transition_key disbursed repaid ∷ []
role_matrix collections =
    transition_key disbursed defaulted
    ∷ transition_key disbursed repaid
    ∷ transition_key overdue written_off
    ∷ transition_key overdue settled
    ∷ transition_key overdue defaulted
    ∷ transition_key overdue repaid
    ∷ transition_key written_off settled
    ∷ []
role_matrix system =
    transition_key submitted rejected
    ∷ transition_key disbursed overdue
    ∷ transition_key overdue disbursed
    ∷ transition_key disbursed repaid
    ∷ transition_key overdue repaid
    ∷ []
role_matrix super_admin = []
role_matrix tenant_admin = []

-- `allowed.has(key)`
unfoldable pub has_key : List (Status × Status) → Status → Status → Bool
unfolding status_eq
has_key [] from to = false
has_key ((f, t) ∷ ks) from to = (status_eq f from && status_eq t to) || has_key ks from to

unfoldable pub normalize_role : Role → Role
normalize_role tenant_admin = credit_officer
normalize_role role = role

-- `role === 'SUPER_ADMIN'`
unfoldable pub is_super_admin : Role → Bool
is_super_admin super_admin = true
is_super_admin _ = false

unfoldable pub role_can_transition : Role → Status → Status → Bool
unfolding role_matrix has_key normalize_role is_super_admin
role_can_transition role from to =
    let r = normalize_role role in is_super_admin r || has_key (role_matrix r) from to

unfoldable pub assert_role_can_transition : Role → Status → Status → Result (Unit {0})
unfolding role_can_transition
assert_role_can_transition role from to =
    guard (role_can_transition role from to) role_cannot_transition

-- The two guards in the order in which the handlers that make both make them. Some code that writes
-- the status makes neither, or the first alone.
unfoldable pub assert_transition : Role → Status → Status → Result (Unit {0})
unfolding assert_valid_transition assert_role_can_transition
assert_transition role from to =
    assert_valid_transition from to >> assert_role_can_transition role from to
