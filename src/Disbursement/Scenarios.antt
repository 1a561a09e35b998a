-- ===== src/Disbursement/Scenarios.antt =====
-- A loan that is ready, a pool that can pay it, and a disbursement that failed, at which the
-- theorems apply.
use loanapp.Treasury.Allocations.{capital_entry}
use loanapp.Ledger.Accounts.{
  ensure_default_accounts, ensure_accounts, upsert_account, default_accounts, code_eq, code_index,
}
use loanapp.Disbursement.Retries.{retry_disbursement-replays}
use loanapp.Treasury.Pools.{
  summary_available, deployed_allocation, exceeds_utilization, exceeds_max, resolve_available,
  assert_can_deploy, first_pool, resolve_funding_pool, deploy_to_loan,
}
use loanapp.Disbursement.Money.{disbursed_money, PaidLoan}
use loanapp.Disbursement.Effects.{Told, disbursed_effects, told}
use loanapp.Ledger.Entries.{
  post_entry, record_entry, make_entry, store_line, currency_of, assert_accounts_match,
  assert_tenant_match, find_entry, total, check_lines, add_amount, to_minor, role_can_post,
}
use loanapp.Idempotency.Keys.{decide, find_key, look_up}
use loanapp.Risk.Gate.{assert_not_restricted, enforce_risk_gate, approve}
use loanapp.Disbursement.Actors.{reverse_disbursement_ok, disburse_roles}
use loanapp.Loan.Status.{
  assert_valid_transition, includes, status_eq, status_index, Status, ready_for_disbursement,
}
use loanapp.Disbursement.Stages.{Replayed}
use loanapp.Loan.Roles.{
  assert_transition, assert_role_can_transition, role_can_transition, is_super_admin,
  normalize_role, has_key, role_matrix, ops, system, Role, super_admin,
}
use loanapp.Disbursement.Transaction.{
  deploy_effects, assert_no_duplicate, disbursement_entry, deploy_request, upsert_disbursement,
  succeed_row, disbursed_application, fail_disbursement, note_or, final_effects, start_processing,
  pay_out, process, with_duplicate, is_ready, check_application, disburse_transaction,
}
use loanapp.Disbursement.Records.{
  method_eq, count_success, failed_audited, complete_audited, disbursement_move, DisbursementStatus,
  is_success, bank_transfer, update_by_id, find_by_loan, DisburseInput, Principal, find_by_id, Book,
  NewIds, find_by_key, Application, Disbursement,
}
use loanapp.Disbursement.Requests.{
  retry_disbursement, disburse_now, default_key, disburse_request, reverse_row, assert_ops,
  requested_key, Surroundings, reversal_entry, check_principal, DisburseStore, reverse_disbursement,
}
use loanapp.Common.{
  positive_part?, to_upper, is_blank, refl, is_empty, is_space, trim, ok, ◌∷◌, true, false, none,
  [], ◌⊎◌, some, ◌≡◌, text_eq, trimmed_or_null, Bool, codes,
}

abbrev pub ready_loan : Application
ready_loan = record {
  id = codes "a1";
  status = ready_for_disbursement;
  currency = codes "NGN";
  phone = codes "080";
  approved_amount = some 300;
  requested_amount = 400;
  disbursed_amount = none;
  disbursed_at = none;
}

abbrev pub ready_book : Book
ready_book = record {
  application = some ready_loan;
  disbursements = [];
  risk = record { decision = approve; override_enabled = false; active_holds = 0 };
  borrower_held = false;
  critical_alert = false;
  pools =
      record {
        id = codes "p1";
        created_at = 3;
        rules = record {
          initial_capital = some 900;
          max_deployed = some 500;
          max_utilization = none;
        };
      }
      ∷ [];
  other_allocations = [];
  capital = (none, record { accounts = []; entries = [] });
  history = [];
  moves = [];
  effects = [];
}

abbrev pub admin : Role → Principal
admin role = record { tenant = codes "t1"; admin_id = codes "u1"; role = role }

abbrev pub input : Bool → DisburseInput
input force_fail = record {
  loan_id = codes "a1";
  method = none;
  idempotency_key = none;
  note = none;
  force_fail = force_fail;
}

abbrev pub new_ids : NewIds
new_ids = record {
  now = 9;
  disbursement_id = codes "d1";
  entry_id = codes "e1";
  allocation_id = codes "c1";
  capital_entry_id = codes "e2";
}

paid_run :
    (b : Book) × (disburse_transaction
        (λ n. n)
        false
        new_ids
        (admin super_admin)
        (input false)
        (codes "k1")
        ready_book
      ≡ ok (b, some (codes "d1", DisbursementStatus.success)))
unfolding disburse_transaction check_application with_duplicate process pay_out deploy_effects
    final_effects disbursed_application succeed_row deploy_request disbursement_entry
    start_processing note_or fail_disbursement upsert_disbursement assert_no_duplicate
    disbursement_move count_success update_by_id find_by_id find_by_loan find_by_key method_eq
    enforce_risk_gate assert_not_restricted deploy_to_loan resolve_funding_pool first_pool
    assert_can_deploy resolve_available exceeds_max exceeds_utilization deployed_allocation
    summary_available capital_entry role_can_post to_minor add_amount check_lines total find_entry
    assert_tenant_match assert_accounts_match currency_of store_line make_entry record_entry
    post_entry code_index code_eq default_accounts upsert_account ensure_accounts
    ensure_default_accounts text_eq is_space trim is_empty is_blank trimmed_or_null to_upper
    positive_part? status_index status_eq includes assert_valid_transition role_matrix has_key
    normalize_role is_super_admin role_can_transition assert_role_can_transition assert_transition
paid_run = (_, refl)

reverse_run :
    (b : Book) × (reverse_disbursement
        (λ n. n)
        (record new_ids { entry_id = codes "e3" })
        (admin super_admin)
        (codes "d1")
        (codes "wrong account")
        paid_run.0
      ≡ ok b)
unfolding paid_run reverse_disbursement reversal_entry reverse_row assert_ops update_by_id
    find_by_id disbursement_move role_can_post to_minor add_amount check_lines total find_entry
    assert_tenant_match assert_accounts_match currency_of store_line make_entry record_entry
    post_entry code_index code_eq default_accounts upsert_account ensure_accounts
    ensure_default_accounts text_eq is_space trim is_empty is_blank trimmed_or_null to_upper
    positive_part?
reverse_run = (_, refl)

disbursed_money_example :
    (a : Application) × (some ready_loan ≡ some a)
    × (is_ready a.status ≡ true)
    × (enforce_risk_gate Status.disbursed ready_book.risk ≡ ok tt)
    × (Replayed (codes "k1") ready_book paid_run.0 (codes "d1")
        ⊎ PaidLoan new_ids (admin super_admin) (input false) (codes "k1") a ready_book paid_run.0)
disbursed_money_example =
    disbursed_money (λ n. n) false new_ids (admin super_admin) (input false) (codes "k1") ready_book
      {b' = paid_run.0} {id = codes "d1"} refl paid_run.1

disburse_roles_example :
    Replayed (codes "k1") ready_book paid_run.0 (codes "d1") ⊎ (super_admin ≡ super_admin)
disburse_roles_example =
    disburse_roles (λ n. n) false new_ids (admin super_admin) (input false) (codes "k1") ready_book
      {b' = paid_run.0} {id = codes "d1"} refl paid_run.1

disbursed_effects_example :
    (find_by_key (codes "k1") [] ≡ none
      → find_by_loan ready_loan.id [] ≡ none
      → Told new_ids ready_loan ready_book paid_run.0
          (told ready_loan (codes "d1") (complete_audited (codes "d1"))))
    × ((d : Disbursement)
        → find_by_key (codes "k1") [] ≡ some d
        → d.status ≡ DisbursementStatus.pending
        → Told new_ids ready_loan ready_book paid_run.0
            (told ready_loan (codes "d1") (complete_audited (codes "d1"))))
    × ((d : Disbursement)
        → find_by_key (codes "k1") [] ≡ some d
        → d.status ≡ DisbursementStatus.failed
        → Told new_ids ready_loan ready_book paid_run.0
            (told ready_loan (codes "d1") (failed_audited (codes "d1"))))
disbursed_effects_example =
    disbursed_effects (λ n. n) false new_ids (admin super_admin) (input false) (codes "k1")
      ready_book {b' = paid_run.0} {id = codes "d1"} {a = ready_loan} refl paid_run.1

reverse_disbursement_ok_example :
    ((super_admin ≡ super_admin) ⊎ (super_admin ≡ system))
    × ((d : Disbursement) × (find_by_id (codes "d1") paid_run.0.disbursements ≡ some d)
        × (is_success d.status ≡ true)
        × (reverse_run.0.disbursements
            ≡ update_by_id d.id
                (reverse_row (record new_ids { entry_id = codes "e3" }) (codes "wrong account"))
                paid_run.0.disbursements)
        × ((d' : Disbursement) × (find_by_id (codes "d1") reverse_run.0.disbursements ≡ some d')
            × (d'.status ≡ DisbursementStatus.reversed)
            × (d'.failure_reason ≡ some (codes "wrong account"))
            × (d'.loan_id ≡ d.loan_id)
            × (d'.key ≡ d.key)
            × (d'.amount ≡ d.amount)))
    × (reverse_run.0.application ≡ paid_run.0.application)
    × (reverse_run.0.capital.0 ≡ paid_run.0.capital.0)
reverse_disbursement_ok_example =
    reverse_disbursement_ok (λ n. n) (record new_ids { entry_id = codes "e3" }) (admin super_admin)
      (codes "d1") (codes "wrong account") paid_run.0 {b' = reverse_run.0} reverse_run.1

abbrev surroundings : Bool → Surroundings
surroundings fails = record {
  auto_disburse = false;
  provider_fails = fails;
  ids = new_ids;
  hash = codes "h";
}

abbrev ready_store : DisburseStore
ready_store = record { keys = []; db = ready_book }

failed_run :
    (b : Book) × (disburse_transaction
        (λ n. n)
        true
        new_ids
        (admin ops)
        (input false)
        (requested_key (input false))
        ready_book
      ≡ ok (b, some (codes "d1", DisbursementStatus.failed)))
unfolding disburse_transaction check_application with_duplicate process start_processing note_or
    fail_disbursement upsert_disbursement disbursement_move update_by_id find_by_loan find_by_key
    enforce_risk_gate assert_not_restricted text_eq is_space trim is_empty trimmed_or_null
    status_index status_eq includes requested_key default_key
failed_run = (_, refl)

abbrev failed_row : Disbursement
failed_row = record {
  id = codes "d1";
  loan_id = codes "a1";
  key = requested_key (input false);
  amount = 300;
  currency = codes "NGN";
  method = bank_transfer;
  status = DisbursementStatus.failed;
  provider = none;
  initiated_by = some (codes "u1");
  processed_at = some 9;
  disbursed_at = none;
  failure_reason = some (codes "Mock provider failure");
}

failed_row_found : find_by_id (codes "d1") failed_run.0.disbursements ≡ some failed_row
unfolding failed_run find_by_id text_eq
failed_row_found = refl

retry_disbursement-replays_example :
    (after : DisburseStore) × (disburse_now
        (λ n. n)
        (surroundings true)
        (admin ops)
        (input false)
        ready_store
      ≡ (after, ok (some (codes "d1", DisbursementStatus.failed))))
    × (after.db ≡ failed_run.0)
    × (retry_disbursement
          (λ n. n)
          (surroundings false)
          (admin super_admin)
          (codes "d1")
          none
          false
          after
        ≡ (after, ok (some (codes "d1", DisbursementStatus.failed))))
unfolding trimmed_or_null check_principal assert_ops look_up find_key decide disburse_request
    requested_key default_key trim is_space is_empty
retry_disbursement-replays_example =
    retry_disbursement-replays (λ n. n) (surroundings true) (surroundings false) (admin ops)
      (admin super_admin) (input false) ready_store (codes "d1") none false {b = failed_run.0}
      {d = failed_row} refl refl refl refl refl failed_run.1 failed_row_found refl refl
