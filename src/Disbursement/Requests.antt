-- ===== src/Disbursement/Requests.antt =====
-- The requests on disbursements: `disburseNow`, `retryDisbursement` and `reverseDisbursement` of
-- apps/api/src/modules/admin-loan-applications/admin-loan-applications.service.ts.
use loanapp.Ledger.Accounts.{loan_principal_receivable}
use loanapp.Treasury.Allocations.{debit_credit}
use loanapp.Ledger.Entries.{post_entry, adjustment, EntryInput}
use loanapp.Loan.Roles.{super_admin, system, ops, Role}
use loanapp.Disbursement.Records.{
  disbursement_move, update_by_id, is_failed, is_success, find_by_id, Book, DisbursementStatus,
  Principal, Disbursement, NewIds, DisburseInput,
}
use loanapp.Idempotency.Keys.{with_idempotency, Request, Store}
use loanapp.Common.{
  ◌∷◌, not_success, not_failed, auto_disburse_disabled, disbursement_not_found, ok, ◌&&◌, not_ops,
  err, not, ◌>>=◌, ◌>>◌, some, ◌++◌, guard, false, none, List, trimmed_or_null, Option, true,
  Result, codes, Text, Bool, ℕ,
}
use loanapp.Disbursement.Transaction.{paying_account, Outcome, disburse_transaction}

-- `assertOpsOrSuperAdmin`
abbrev pub is_ops_role : Role → Bool
is_ops_role ops = true
is_ops_role super_admin = true
is_ops_role system = true
is_ops_role _ = false

unfoldable pub assert_ops : Principal → Result (Unit {0})
assert_ops p = guard (is_ops_role p.role) not_ops

abbrev pub is_system : Role → Bool
is_system system = true
is_system _ = false

unfoldable pub default_key : Text → Text
default_key loan = codes "loan:" ++ (loan ++ codes ":disburse:v1")

-- `input.idempotencyKey?.trim() || …`
unfoldable pub requested_key : DisburseInput → Text
requested_key i = elim (trimmed_or_null i.idempotency_key) [
  | none ↦ default_key i.loan_id
  | some k ↦ k
]

-- `hash` is the text made of the input, which nothing compares.
unfoldable pub disburse_request : Principal → DisburseInput → Text → Request
disburse_request p i hash = record {
  tenant = p.tenant;
  scope = codes "DISBURSEMENT";
  key = requested_key i;
  request_hash = some hash;
}

-- What a request brings along: the tenant's flag AUTO_DISBURSE, the provider's answer, the clock
-- and the new identifiers, and the request's hash.
pub record Surroundings : Type 0 where
  pub auto_disburse : Bool
  pub provider_fails : Bool
  pub ids : NewIds
  pub hash : Text

abbrev pub DisburseStore : Type 0
DisburseStore = Store Book Outcome

-- The guards before the idempotency key.
unfoldable pub check_principal : Bool → Principal → Result (Unit {0})
check_principal auto p = do
  guard (not (is_system p.role && not auto)) auto_disburse_disabled
  assert_ops p

unfoldable pub disburse_now :
    (ℕ → ℕ)
    → Surroundings
    → Principal
    → DisburseInput
    → DisburseStore
    → DisburseStore × Result (Option Outcome)
disburse_now column c p i s = elim (check_principal c.auto_disburse p) [
  | err e ↦ (s, err e)
  | ok _ ↦
      with_idempotency (disburse_request p i c.hash)
        (disburse_transaction column c.provider_fails c.ids p i (requested_key i)) s
]

-- The input that `retryDisbursement` passes on: no method and no key.
unfoldable pub retry_input : Disbursement → Option Text → Bool → DisburseInput
retry_input d note force_fail = record {
  loan_id = d.loan_id;
  method = none;
  idempotency_key = none;
  note = note;
  force_fail = force_fail;
}

unfoldable pub check_retry : Text → List Disbursement → Result Disbursement
check_retry id ds = elim (find_by_id id ds) [
  | none ↦ err disbursement_not_found
  | some d ↦ (do guard (is_failed d.status) not_failed; ok d)
]

unfoldable pub retry_disbursement :
    (ℕ → ℕ)
    → Surroundings
    → Principal
    → Text
    → Option Text
    → Bool
    → DisburseStore
    → DisburseStore × Result (Option Outcome)
retry_disbursement column c p id note force_fail s =
    elim (assert_ops p >> check_retry id s.db.disbursements) [
      | err e ↦ (s, err e)
      | ok d ↦ disburse_now column c p (retry_input d note force_fail) s
    ]

unfoldable pub reversal_entry : NewIds → Principal → Disbursement → EntryInput
reversal_entry f p d = record {
  tenant = p.tenant;
  occurred_at = f.now;
  type = adjustment;
  key = codes "reverse:" ++ d.id;
  reference_type = codes "LoanApplication";
  reference_id = d.loan_id;
  currency = some d.currency;
  created_by = some p.admin_id;
  actor_role = some p.role;
  memo = some (codes "Disbursement reversal " ++ d.id);
  lines = debit_credit (paying_account d.method) loan_principal_receivable d.amount;
}

unfoldable pub reverse_row : NewIds → Text → Disbursement → Disbursement
reverse_row f reason d = record d {
  status = DisbursementStatus.reversed;
  failure_reason = some reason;
  processed_at = some f.now;
}

-- `reverseDisbursement`
unfoldable pub reverse_disbursement :
    (ℕ → ℕ) → NewIds → Principal → Text → Text → Book → Result Book
reverse_disbursement column f p id reason b = do
  assert_ops p
  d ← (elim (find_by_id id b.disbursements) [ none ↦ err disbursement_not_found | some d ↦ ok d ])
  guard (is_success d.status) not_success
  posted ← post_entry column f.entry_id (reversal_entry f p d) b.capital.1
  ok (record b {
    disbursements = update_by_id d.id (reverse_row f reason) b.disbursements;
    capital = (b.capital.0, posted.0);
    moves =
        disbursement_move d (some d.status) DisbursementStatus.reversed (some reason) p.admin_id
        ∷ b.moves;
  })
