-- ===== src/Loan/Status.antt =====
-- The status of a loan application and the transitions that are valid:
-- apps/api/src/modules/loan-applications/loan-application-status-transition.ts.
use loanapp.Common.{ℕ, ◌==◌, Bool, false, ◌||◌, List, [], ◌∷◌, Result, guard, invalid_transition}

pub data Status : Type 0 where
  draft submitted under_review requested_documents approved ready_for_disbursement : Status
  disbursed overdue written_off settled repaid defaulted rejected : Status

-- The position of a status in the enumeration of `apps/api/prisma/schema.prisma`.
unfoldable pub status_index : Status → ℕ
status_index draft = 0
status_index submitted = 1
status_index under_review = 2
status_index requested_documents = 3
status_index approved = 4
status_index ready_for_disbursement = 5
status_index disbursed = 6
status_index overdue = 7
status_index written_off = 8
status_index settled = 9
status_index repaid = 10
status_index defaulted = 11
status_index rejected = 12

-- `a === b`
unfoldable pub status_eq : Status → Status → Bool
unfolding status_index
status_eq a b = status_index a == status_index b

-- `allowed.includes(to)`
unfoldable pub includes : List Status → Status → Bool
unfolding status_eq
includes [] s = false
includes (x ∷ xs) s = status_eq x s || includes xs s

-- `TRANSITION_MAP`, and `getAllowedTransitions`, which reads it.
pub get_allowed_transitions : Status → List Status
get_allowed_transitions draft = submitted ∷ []
get_allowed_transitions submitted = under_review ∷ rejected ∷ []
get_allowed_transitions under_review = requested_documents ∷ approved ∷ rejected ∷ []
get_allowed_transitions requested_documents = under_review ∷ []
get_allowed_transitions approved = ready_for_disbursement ∷ []
get_allowed_transitions ready_for_disbursement = approved ∷ disbursed ∷ []
get_allowed_transitions disbursed = overdue ∷ settled ∷ repaid ∷ defaulted ∷ []
get_allowed_transitions overdue = disbursed ∷ written_off ∷ settled ∷ repaid ∷ defaulted ∷ []
get_allowed_transitions written_off = settled ∷ []
get_allowed_transitions settled = []
get_allowed_transitions repaid = []
get_allowed_transitions defaulted = []
get_allowed_transitions rejected = []

unfoldable pub assert_valid_transition : Status → Status → Result (Unit {0})
unfolding includes get_allowed_transitions
assert_valid_transition from to =
    guard (includes (get_allowed_transitions from) to) invalid_transition
