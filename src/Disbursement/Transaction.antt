-- ===== src/Disbursement/Transaction.antt =====
-- The transaction of `disburseNow`:
-- apps/api/src/modules/admin-loan-applications/admin-loan-applications.service.ts, with
-- `assertNoDuplicateDisbursement` of apps/api/src/common/finance/invariants.ts. The two assertions
-- after it are left out: they read the balances that the application had before, which here are not
-- negative, and the status DISBURSED, which closes nothing. So are the provider's reference, the
-- lock on the loan, and the checks that `disburseNow` makes after the commit.
use loanapp.Risk.Gate.{enforce_risk_gate, assert_not_restricted}
use loanapp.Loan.Roles.{assert_transition}
use loanapp.Treasury.Pools.{deploy_to_loan}
use loanapp.Ledger.Entries.{disbursement, post_entry, EntryInput}
use loanapp.Treasury.Allocations.{debit_credit, CapitalRequest, CapitalAllocation}
use loanapp.Ledger.Accounts.{loan_principal_receivable, bank_clearing, cash_on_hand, Code}
use loanapp.Loan.Status.{ready_for_disbursement, status_eq, Status}
use loanapp.Common.{
  [], finalized_with_other_method, critical_alert, true, not_ready, key_of_other_disbursement,
  duplicate_disbursement, text_eq, ok, ◌>>◌, ◌++◌, ◌∷◌, not, loan_not_found, ◌||◌, leb,
  if◌then◌else◌, guard, List, ◌>>=◌, err, Result, Bool, codes, some, ℕ, Text, Option,
}
use mathlib.Core.Option.{none}
use loanapp.Disbursement.Records.{
  treasury_move_audited, behavior_incremented, disbursed_notified, completed_event,
  complete_audited, is_success, count_success, failed_audited, is_failed, cash, manual, method_of,
  transition_audited, find_by_loan, method_eq, disbursement_move, Notice, find_by_key, amount_of,
  update_by_id, DisbursementStatus, DisburseInput, Disbursement, Principal, NewIds, Method,
  Application, Book,
}

-- `{ disbursementId, finalStatus }`
abbrev pub Outcome : Type 0
Outcome = Text × DisbursementStatus

-- `assertNoDuplicateDisbursement`
unfoldable pub assert_no_duplicate : ℕ → Result (Unit {0})
assert_no_duplicate n = guard (leb n 1) duplicate_disbursement

-- The row that has the key if there is one, or what the upsert leaves, and the rows with it.
unfoldable pub upsert_disbursement :
    NewIds
    → Principal
    → DisburseInput
    → Text
    → Application
    → List Disbursement
    → Disbursement × List Disbursement
upsert_disbursement f p i key a ds = elim (find_by_loan a.id ds) [
  | some d ↦
      let next : Disbursement = record d { key = key; method = method_of i } in
      (next, update_by_id d.id (λ x. record x { key = key; method = method_of i }) ds)
  | none ↦
      let next : Disbursement = record {
        id = f.disbursement_id;
        loan_id = a.id;
        key = key;
        amount = amount_of a;
        currency = a.currency;
        method = method_of i;
        status = DisbursementStatus.pending;
        provider = none;
        initiated_by = some p.admin_id;
        processed_at = none;
        disbursed_at = none;
        failure_reason = none;
      } in
      (next, next ∷ ds)
]

unfoldable pub note_or : Option Text → Text → Text
note_or none d = d
note_or (some n) d = n

-- `PROCESSING`, and the history of it.
unfoldable pub start_processing : Principal → DisburseInput → Disbursement → Book → Book
start_processing p i d b = record b {
  disbursements =
      update_by_id d.id
        (λ x. record x { status = DisbursementStatus.processing; failure_reason = none })
        b.disbursements;
  moves =
      disbursement_move d (some d.status) DisbursementStatus.processing
        (some (note_or i.note (codes "Disbursement moved to processing."))) p.admin_id
      ∷ b.moves;
}

-- The provider's failure.
unfoldable pub fail_disbursement : NewIds → Principal → Disbursement → Book → Book
fail_disbursement f p d b = record b {
  disbursements =
      update_by_id d.id
        (λ x. record x {
          status = DisbursementStatus.failed;
          failure_reason = some (codes "Mock provider failure");
          processed_at = some f.now;
        })
        b.disbursements;
  moves =
      disbursement_move d (some DisbursementStatus.processing) DisbursementStatus.failed
        (some (codes "Provider reported failure.")) p.admin_id
      ∷ b.moves;
}

abbrev pub paying_account : Method → Code
paying_account manual = cash_on_hand
paying_account cash = cash_on_hand
paying_account _ = bank_clearing

unfoldable pub disbursement_entry :
    NewIds → Principal → DisburseInput → Application → Text → EntryInput
disbursement_entry f p i a key = record {
  tenant = p.tenant;
  occurred_at = f.now;
  type = disbursement;
  key = key;
  reference_type = codes "LoanApplication";
  reference_id = a.id;
  currency = some a.currency;
  created_by = some p.admin_id;
  actor_role = some p.role;
  memo = some (codes "Loan disbursement " ++ a.id);
  lines = debit_credit loan_principal_receivable (paying_account (method_of i)) (amount_of a);
}

unfoldable pub deploy_request : NewIds → Principal → Application → Disbursement → CapitalRequest
deploy_request f p a d = record {
  tenant = p.tenant;
  loan_id = a.id;
  amount = amount_of a;
  currency = a.currency;
  key = d.id;
  actor_id = some p.admin_id;
  actor_role = some p.role;
  now = f.now;
}

unfoldable pub succeed_row : NewIds → Method → Disbursement → Disbursement
succeed_row f m d = record d {
  method = m;
  status = DisbursementStatus.success;
  provider = some (if method_eq m manual then codes "MANUAL" else codes "MOCK_PROVIDER");
  processed_at = some f.now;
  disbursed_at = some f.now;
  failure_reason = none;
}

unfoldable pub disbursed_application : NewIds → Application → Application
disbursed_application f a = record a {
  status = Status.disbursed;
  disbursed_amount = some (amount_of a);
  disbursed_at = some f.now;
}

-- The calls at the end of the transaction. `d` is the row as it was before the processing: its
-- status decides which audit is written, and whether the event is.
unfoldable pub final_effects : Application → Disbursement → List Notice
final_effects a d =
    transition_audited a.id a.status Status.disbursed
    ∷ (if is_failed d.status then failed_audited d.id else complete_audited d.id)
    ∷ ((if is_success d.status then completed_event d.id ∷ [] else [])
        ++ (disbursed_notified d.id ∷ behavior_incremented a.phone (amount_of a) ∷ []))

-- The audit at the end of `deployToLoan`: a loan that has its capital is left before it.
unfoldable pub deploy_effects :
    Application → Option CapitalAllocation → CapitalAllocation → List Notice
deploy_effects a (some x) q = []
deploy_effects a none q = treasury_move_audited q.id q.pool_id a.id (amount_of a) ∷ []

-- The entry, the capital, and the writes after them.
unfoldable pub pay_out :
    (ℕ → ℕ)
    → NewIds
    → Principal
    → DisburseInput
    → Text
    → Application
    → Disbursement
    → Book
    → Result (Book × Outcome)
pay_out column f p i key a d b = do
  posted ← post_entry column f.entry_id (disbursement_entry f p i a key) b.capital.1
  deployed ←
      deploy_to_loan column (f.allocation_id, f.capital_entry_id) (deploy_request f p a d) b.pools
        b.other_allocations (b.capital.0, posted.0)
  let rows = update_by_id d.id (succeed_row f (method_of i)) b.disbursements
  assert_transition p.role a.status Status.disbursed
  assert_no_duplicate (count_success a.id rows)
  ok (
    record b {
      application = some (disbursed_application f a);
      disbursements = rows;
      capital = deployed.0;
      history =
          record {
            from = a.status;
            to = Status.disbursed;
            note = codes "Disbursed";
            changed_by = p.admin_id;
          }
          ∷ b.history;
      moves =
          disbursement_move d (some DisbursementStatus.processing) DisbursementStatus.success
            (some (note_or i.note (codes "Disbursement succeeded."))) p.admin_id
          ∷ b.moves;
      effects = b.effects ++ (deploy_effects a b.capital.0 deployed.1 ++ final_effects a d);
    },
    (d.id, DisbursementStatus.success),
  )

-- From the row on: `provider_fails` is the mock provider's answer.
unfoldable pub process :
    (ℕ → ℕ)
    → Bool
    → NewIds
    → Principal
    → DisburseInput
    → Text
    → Application
    → Disbursement
    → Book
    → Result (Book × Outcome)
process column provider_fails f p i key a d b =
    let started = start_processing p i d b in
    if i.force_fail || provider_fails
    then ok (fail_disbursement f p d started, (d.id, DisbursementStatus.failed))
    else pay_out column f p i key a d started

-- What the key's row decides.
unfoldable pub with_duplicate :
    (ℕ → ℕ)
    → Bool
    → NewIds
    → Principal
    → DisburseInput
    → Text
    → Application
    → Option Disbursement
    → Book
    → Result (Book × Outcome)
with_duplicate column fails f p i key a none b =
    let (d, rows) = upsert_disbursement f p i key a b.disbursements in
    process column fails f p i key a d (record b { disbursements = rows })
with_duplicate column fails f p i key a (some d) b =
    if not (text_eq d.loan_id a.id)
    then err key_of_other_disbursement
    else if is_success d.status
    then (do
      guard (elim i.method [ none ↦ true | some m ↦ method_eq d.method m ])
          finalized_with_other_method
      ok (b, (d.id, DisbursementStatus.success)))
    else process column fails f p i key a d b

abbrev pub is_ready : Status → Bool
is_ready s = status_eq s ready_for_disbursement

-- The guards on the application, in their order.
unfoldable pub check_application : Principal → Book → Option Application → Result Application
check_application p b none = err loan_not_found
check_application p b (some a) = do
  guard (is_ready a.status) not_ready
  assert_not_restricted b.borrower_held p.role
  enforce_risk_gate Status.disbursed b.risk
  guard (not b.critical_alert) critical_alert
  ok a

-- `fn` of `disburseNow`.
unfoldable pub disburse_transaction :
    (ℕ → ℕ)
    → Bool
    → NewIds
    → Principal
    → DisburseInput
    → Text
    → Book
    → Result (Book × Option Outcome)
disburse_transaction column fails f p i key b = do
  a ← check_application p b b.application
  done ← with_duplicate column fails f p i key a (find_by_key key b.disbursements) b
  ok (done.0, some done.1)
