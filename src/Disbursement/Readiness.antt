-- ===== src/Disbursement/Readiness.antt =====
-- `markReadyForDisbursement` of
-- apps/api/src/modules/admin-loan-applications/admin-loan-applications.service.ts, but for the
-- audit after its transaction.
use loanapp.Risk.Gate.{enforce_risk_gate}
use loanapp.Ledger.Entries.{assert_tenant_match}
use loanapp.Disbursement.Requests.{default_key}
use loanapp.Loan.Status.{approved, status_eq, ready_for_disbursement}
use loanapp.Loan.Roles.{assert_transition, super_admin, credit_officer, Role}
use loanapp.Disbursement.Records.{
  status_notified, disbursement_move, DisbursementStatus, bank_transfer, amount_of, find_by_loan,
  Book, Disbursement, Principal, Application, NewIds,
}
use loanapp.Common.{
  [], ◌++◌, not_approved, loan_not_found, err, none, ◌>>=◌, codes, not_credit_officer, guard, ◌∷◌,
  some, ◌>>◌, Result, false, true, Bool, ok,
}

abbrev pub may_mark_ready : Role → Bool
may_mark_ready credit_officer = true
may_mark_ready super_admin = true
may_mark_ready _ = false

abbrev pub ready_application : Application → Application
ready_application a = record a { status = ready_for_disbursement }

unfoldable pub pending_disbursement : NewIds → Principal → Application → Disbursement
pending_disbursement f p a = record {
  id = f.disbursement_id;
  loan_id = a.id;
  key = default_key a.id;
  amount = amount_of a;
  currency = a.currency;
  method = bank_transfer;
  status = DisbursementStatus.pending;
  provider = none;
  initiated_by = some p.admin_id;
  processed_at = none;
  disbursed_at = none;
  failure_reason = none;
}

-- The row of the disbursement, with the history of it, unless the loan has one.
unfoldable pub with_disbursement : NewIds → Principal → Application → Book → Book
with_disbursement f p a b = elim (find_by_loan a.id b.disbursements) [
  | some d ↦ b
  | none ↦
      let d = pending_disbursement f p a in
      record b {
        disbursements = d ∷ b.disbursements;
        moves =
            disbursement_move d none DisbursementStatus.pending
              (some (codes "Disbursement record created.")) p.admin_id
            ∷ b.moves;
      }
]

unfoldable pub mark_ready : NewIds → Principal → Book → Result Book
mark_ready f p b = do
  guard (may_mark_ready p.role) not_credit_officer
  a ← (elim b.application [ none ↦ err loan_not_found | some a ↦ ok a ])
  assert_tenant_match p.tenant p.tenant
  guard (status_eq a.status approved) not_approved
  assert_transition p.role a.status ready_for_disbursement
  enforce_risk_gate ready_for_disbursement b.risk
  ok (
      with_disbursement f p a (record b {
        application = some (ready_application a);
        history =
            record {
              from = a.status;
              to = ready_for_disbursement;
              note = codes "Marked ready for disbursement.";
              changed_by = p.admin_id;
            }
            ∷ b.history;
        effects = b.effects ++ (status_notified a.id a.status ready_for_disbursement ∷ []);
      }))
