-- ===== src/Loan/Lifecycle.antt =====
-- What the two guards on transitions (Status, Roles) guarantee along a history of a loan.
use loanapp.Common.{
  ℕ, ◌≤◌, ◌≡◌, ◌⊎◌, List, [], ◌∷◌, ok, arith, ◌<◌, suc, ◌&&◌, ◌||◌, not, Bool, true, false, ◌==◌,
}
use loanapp.Loan.Status.{
  Status, under_review, requested_documents, approved, ready_for_disbursement, disbursed, overdue,
  written_off, settled, repaid, defaulted,
}
use loanapp.Loan.Roles.{
  Role, credit_officer, risk_manager, ops, tenant_admin, assert_transition, is_super_admin,
}

-- Who moves a loan: a role that passes both guards, or code that writes the status without them.
pub data Mover : Type 0 where
  guarded : Role → Mover
  unguarded : Mover

-- A history: the moves from the newest to the oldest. Through both guards go, among others,
-- markReadyForDisbursement, disburseNow, the delinquency engine and the closing of a loan by a
-- repayment. Some code writes the status without both: setStatusDirectSystemOnly and disburseLoan of
-- loan-applications.service.ts, the payout of payment-intents.service.ts and, for SYSTEM, the
-- decisions of loan-decision-orchestrator.service.ts. Its moves are `unguarded`, to any status.
pub data Trace (from : Status) : Status → List (Mover × Status) → Type 0 where
  here : Trace from from []
  next :
      {s : Status} {ms : List (Mover × Status)}
      → Trace from s ms
      → (role : Role) (t : Status) → assert_transition role s t ≡ ok tt
      → Trace from t ((guarded role, t) ∷ ms)
  written :
      {s : Status} {ms : List (Mover × Status)}
      → Trace from s ms
      → (t : Status) → Trace from t ((unguarded, t) ∷ ms)

-- The stages that separate duties: reviewed, approved, funded. A rejected loan has none of them.
unfoldable pub stage : Status → ℕ
stage under_review = 1
stage requested_documents = 1
stage approved = 2
stage ready_for_disbursement = 2
stage disbursed = 3
stage overdue = 3
stage written_off = 3
stage settled = 3
stage repaid = 3
stage defaulted = 3
stage _ = 0

-- The stage that a role is there to open.
unfoldable pub duty : Role → ℕ
duty credit_officer = 1
duty tenant_admin = 1
duty risk_manager = 2
duty ops = 3
duty _ = 0

-- Every move went through the guards, and none was a super admin's.
unfoldable pub within_duties : List (Mover × Status) → Bool
within_duties [] = true
within_duties ((guarded r, _) ∷ ms) = not (is_super_admin r) && within_duties ms
within_duties ((unguarded, _) ∷ ms) = false

-- Some move through the guards was made by a role whose duty is `k`.
unfoldable pub duty_done : ℕ → List (Mover × Status) → Bool
duty_done k [] = false
duty_done k ((guarded r, _) ∷ ms) = duty r == k || duty_done k ms
duty_done k ((unguarded, _) ∷ ms) = duty_done k ms

stage_step :
    (role : Role) (s t : Status)
    → is_super_admin role ≡ false
    → assert_transition role s t ≡ ok tt
    → (stage t ≤ stage s) ⊎ ((stage t ≡ suc (stage s)) × (duty role ≡ stage t))
unfolding assert_transition stage duty is_super_admin
stage_step credit_officer s t n h = ground arith
stage_step _ s t n h = ground arith

-- A loan that has come to some stage through the two guards alone, and without the help of a super
-- admin, has had, for that stage and each one before it that it had not reached, a move by a role
-- with that duty. A history in which code has written the status without the guards is excepted.
pub separation_of_duties :
    {from to : Status} {ms : List (Mover × Status)} (k : ℕ)
    → Trace from to ms
    → stage from < k
    → k ≤ stage to
    → within_duties ms ≡ true
    → duty_done k ms ≡ true
unfolding within_duties duty_done
separation_of_duties k here lo hi w = absurd (omega arith)
separation_of_duties k (next {s} {ms} history role t e) lo hi w =
    ground (arith, stage_step role s t, separation_of_duties k history lo)
separation_of_duties k (written history t) lo hi w = cc
