-- ===== src/Risk/Gate.antt =====
-- `enforceRiskGate` of apps/api/src/risk/risk.service.ts, and `assertBorrowerNotRestricted` of
-- apps/api/src/modules/fraud/hold-enforcement.service.ts. A decision stands with its override flag;
-- of the holds the gate reads only whether there are any.
use loanapp.Loan.Roles.{super_admin, Role}
use loanapp.Common.{
  risk_hold, ltb, risk_review, ◌&&◌, risk_declined, ◌>>◌, [], borrower_restricted, ok, ◌||◌, not,
  false, ◌∷◌, if◌then◌else◌, true, ℕ, guard, Bool, Result, List,
}
use loanapp.Loan.Status.{
  status_eq, disbursed, ready_for_disbursement, includes, under_review, approved, Status,
}

-- `RiskDecision`
pub data Decision : Type 0 where
  approve review decline : Decision

-- What the gate reads of `getRiskSnapshot` and `listActiveHolds`.
pub record RiskState : Type 0 where
  pub decision : Decision
  pub override_enabled : Bool
  pub active_holds : ℕ

-- `SENSITIVE_RISK_GATES`
abbrev pub sensitive_gates : List Status
sensitive_gates = under_review ∷ approved ∷ ready_for_disbursement ∷ disbursed ∷ []

abbrev pub hold_blocked : List Status
hold_blocked = approved ∷ ready_for_disbursement ∷ disbursed ∷ []

abbrev pub is_decline : Decision → Bool
is_decline decline = true
is_decline _ = false

abbrev pub is_review : Decision → Bool
is_review review = true
is_review _ = false

unfoldable pub enforce_risk_gate : Status → RiskState → Result (Unit {0})
enforce_risk_gate to r =
    if not (includes sensitive_gates to) || r.override_enabled then ok tt else (do
      guard (not (is_decline r.decision)) risk_declined
      guard (not (is_review r.decision && not (status_eq to under_review))) risk_review
      guard (not (ltb 0 r.active_holds && includes hold_blocked to)) risk_hold)

abbrev pub is_super : Role → Bool
is_super super_admin = true
is_super _ = false

-- Whether the borrower has an active hold, and the role that asks.
unfoldable pub assert_not_restricted : Bool → Role → Result (Unit {0})
assert_not_restricted held role = guard (not held || is_super role) borrower_restricted
