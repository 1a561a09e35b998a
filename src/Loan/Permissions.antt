-- ===== src/Loan/Permissions.antt =====
-- How the two guards on a transition, its validity (Status) and the role's right (Roles), relate.
use loanapp.Common.{◌↔◌, some_of, ◌≡◌, ◌≢◌, ◌⊎◌, refl, List, [], ◌∷◌, ok, arith, false}
use loanapp.Loan.Status.{
  Status, draft, submitted, approved, ready_for_disbursement, disbursed, settled,
  assert_valid_transition,
}
use loanapp.Loan.Roles.{
  Role, credit_officer, risk_manager, ops, super_admin, tenant_admin, assert_role_can_transition,
  collections, system, role_can_transition, assert_transition,
}

-- A transition that both guards admit passed the first.
pub assert_transition_valid :
    (role : Role) (from to : Status)
    → assert_transition role from to ≡ ok tt
    → assert_valid_transition from to ≡ ok tt
unfolding assert_transition
assert_transition_valid role from to h = ground arith

-- Every transition in a role's matrix is a valid one.
pub role_matrix_valid :
    (role : Role) (from to : Status)
    → role ≢ super_admin
    → assert_role_can_transition role from to ≡ ok tt
    → assert_valid_transition from to ≡ ok tt
unfolding assert_role_can_transition assert_valid_transition
role_matrix_valid credit_officer from to n h = ground arith
role_matrix_valid super_admin from to n h = absurd (n refl)
role_matrix_valid _ from to n h = ground arith

-- Every role but the super admin.
abbrev pub plain_roles : List Role
plain_roles = credit_officer ∷ risk_manager ∷ ops ∷ collections ∷ system ∷ tenant_admin ∷ []

-- The valid transitions that the role matrix gives to nobody are exactly three.
pub super_admin_only_iff :
    (from to : Status)
    → ((assert_valid_transition from to ≡ ok tt)
        × (some_of (λ r. role_can_transition r from to) plain_roles ≡ false))
      ↔ (((from ≡ draft) × (to ≡ submitted))
          ⊎ (((from ≡ ready_for_disbursement) × (to ≡ approved))
              ⊎ ((from ≡ disbursed) × (to ≡ settled))))
unfolding assert_valid_transition role_can_transition
super_admin_only_iff draft to = (ground arith, ground arith)
super_admin_only_iff _ to = (ground arith, ground arith)
