-- ===== src/Disbursement/FlowScenarios.antt =====
-- A loan that is marked ready and disbursed, at which the theorem on the flow applies.
use loanapp.Ledger.Accounts.{
  ensure_default_accounts, ensure_accounts, upsert_account, default_accounts, code_eq, code_index,
}
use loanapp.Ledger.Entries.{
  post_entry, record_entry, make_entry, store_line, currency_of, assert_accounts_match,
  assert_tenant_match, find_entry, total, check_lines, add_amount, to_minor, role_can_post,
}
use loanapp.Treasury.Allocations.{CapitalAllocation, capital_entry}
use loanapp.Treasury.Pools.{
  summary_available, deployed_allocation, exceeds_utilization, exceeds_max, resolve_available,
  assert_can_deploy, first_pool, resolve_funding_pool, deploy_to_loan,
}
use loanapp.Risk.Gate.{assert_not_restricted, enforce_risk_gate}
use loanapp.Disbursement.Flow.{ready_then_disbursed}
use loanapp.Disbursement.Effects.{told}
use loanapp.Loan.Roles.{
  assert_transition, assert_role_can_transition, role_can_transition, is_super_admin,
  normalize_role, has_key, role_matrix, super_admin, credit_officer,
}
use loanapp.Common.{
  ◌∷◌, refl, ok, positive_part?, to_upper, trimmed_or_null, is_blank, is_empty, trim, is_space,
  text_eq, false, codes, ◌++◌, ◌⊎◌, ◌≡◌, some,
}
use loanapp.Disbursement.Transaction.{
  deploy_effects, assert_no_duplicate, upsert_disbursement, fail_disbursement, note_or,
  start_processing, disbursement_entry, deploy_request, succeed_row, disbursed_application,
  final_effects, pay_out, process, with_duplicate, check_application, disburse_transaction,
}
use loanapp.Loan.Status.{assert_valid_transition, includes, status_eq, status_index, approved}
use loanapp.Disbursement.Requests.{default_key}
use loanapp.Disbursement.Readiness.{
  ready_application, pending_disbursement, with_disbursement, mark_ready,
}
use loanapp.Disbursement.Records.{
  amount_of, treasury_move_audited, DisbursementStatus, method_eq, find_by_key, find_by_id,
  update_by_id, count_success, disbursement_move, complete_audited, Application, Book, find_by_loan,
}
use loanapp.Disbursement.Scenarios.{ready_loan, ready_book, admin, input, new_ids}

abbrev approved_loan : Application
approved_loan = record ready_loan { status = approved }

abbrev approved_book : Book
approved_book = record ready_book { application = some approved_loan }

marked_run : (b : Book) × (mark_ready new_ids (admin credit_officer) approved_book ≡ ok b)
unfolding mark_ready with_disbursement pending_disbursement default_key disburse_transaction
    check_application with_duplicate process pay_out final_effects disbursed_application succeed_row
    deploy_request disbursement_entry start_processing note_or fail_disbursement upsert_disbursement
    assert_no_duplicate disbursement_move count_success update_by_id find_by_id find_by_loan
    find_by_key method_eq enforce_risk_gate assert_not_restricted deploy_to_loan
    resolve_funding_pool first_pool assert_can_deploy resolve_available exceeds_max
    exceeds_utilization deployed_allocation summary_available capital_entry role_can_post to_minor
    add_amount check_lines total find_entry assert_tenant_match assert_accounts_match currency_of
    store_line make_entry record_entry post_entry code_index code_eq default_accounts upsert_account
    ensure_accounts ensure_default_accounts text_eq is_space trim is_empty is_blank trimmed_or_null
    to_upper positive_part? status_index status_eq includes assert_valid_transition role_matrix
    has_key normalize_role is_super_admin role_can_transition assert_role_can_transition
    assert_transition
marked_run = (_, refl)

flow_run :
    (b : Book) × (disburse_transaction
        (λ n. n)
        false
        new_ids
        (admin super_admin)
        (input false)
        (default_key (codes "a1"))
        marked_run.0
      ≡ ok (b, some (codes "d1", DisbursementStatus.success)))
unfolding marked_run default_key disburse_transaction check_application with_duplicate process
    pay_out deploy_effects final_effects disbursed_application succeed_row deploy_request
    disbursement_entry start_processing note_or fail_disbursement upsert_disbursement
    assert_no_duplicate disbursement_move count_success update_by_id find_by_id find_by_loan
    find_by_key method_eq enforce_risk_gate assert_not_restricted deploy_to_loan
    resolve_funding_pool first_pool assert_can_deploy resolve_available exceeds_max
    exceeds_utilization deployed_allocation summary_available capital_entry role_can_post to_minor
    add_amount check_lines total find_entry assert_tenant_match assert_accounts_match currency_of
    store_line make_entry record_entry post_entry code_index code_eq default_accounts upsert_account
    ensure_accounts ensure_default_accounts text_eq is_space trim is_empty is_blank trimmed_or_null
    to_upper positive_part? status_index status_eq includes assert_valid_transition role_matrix
    has_key normalize_role is_super_admin role_can_transition assert_role_can_transition
    assert_transition
flow_run = (_, refl)

ready_then_disbursed_example :
    ((credit_officer ≡ credit_officer) ⊎ (credit_officer ≡ super_admin))
    × (super_admin ≡ super_admin)
    × ((c : CapitalAllocation) × (flow_run.0.capital.0 ≡ some c)
        × (flow_run.0.effects
            ≡ marked_run.0.effects
              ++ treasury_move_audited (codes "c1") c.pool_id (codes "a1") (amount_of approved_loan)
                ∷ told
                    (ready_application approved_loan)
                    (codes "d1")
                    (complete_audited (codes "d1"))))
unfolding find_by_loan
ready_then_disbursed_example =
    ready_then_disbursed (λ n. n) false new_ids new_ids (admin credit_officer) (admin super_admin)
      (input false) approved_book {a = approved_loan} {b1 = marked_run.0} {b' = flow_run.0}
      {id = codes "d1"} refl refl refl marked_run.1 flow_run.1
