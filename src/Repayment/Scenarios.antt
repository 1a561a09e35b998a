-- ===== src/Repayment/Scenarios.antt =====
-- A loan with two installments, one of them late, at which the theorems apply.
use loanapp.Repayment.Closing.{repaid_iff}
use loanapp.Repayment.Overpayment.{posted-le-due, due, overpayment_is_unbalanced}
use loanapp.Repayment.Actors.{ops_capital, posting_roles}
use loanapp.Repayment.Order.{allocate-late_first, allocate-Within, For}
use loanapp.Repayment.Stages.{allocated}
use loanapp.Repayment.Conservation.{allocate_conserves, remaining, spent}
use loanapp.Ledger.Accounts.{
  ensure_default_accounts, ensure_accounts, upsert_account, default_accounts, code_eq, code_index,
}
use loanapp.Ledger.Entries.{
  post_entry, record_entry, make_entry, store_line, currency_of, assert_accounts_match,
  assert_tenant_match, find_entry, total, check_lines, add_amount, to_minor, role_can_post,
}
use loanapp.Loan.Status.{repaid, assert_valid_transition, includes, status_eq, status_index, Status}
use loanapp.Repayment.Transaction.{
  is_overdue_note, RepaymentResult, post_in_transaction, settle, settled_loan, assert_closing,
  assert_loan_can_close, next_status, note_overdue, next_due, repayment_row, capital_request,
  repayment_entry, has_repayment, check_loan, outstanding_total,
}
use loanapp.Treasury.Allocations.{
  apply_principal_repayment, release, status_after_release, capital_entry, AllocationStatus,
  CapitalAllocation,
}
use loanapp.Loan.Roles.{
  super_admin, system, assert_transition, assert_role_can_transition, role_can_transition,
  is_super_admin, normalize_role, has_key, role_matrix, ops, Role,
}
use loanapp.Repayment.Allocation.{
  allocate, allocate_items, update_of, allocation_of, ordered_items, is_late, share_of,
  normalize_status, is_paid, pending, Item,
}
use loanapp.Repayment.Posting.{
  repayment_lines, bank_transfer, apply_updates, update_row, updated, PostInput, LoanBook, Fresh,
  LoanRow, mark_overdue,
}
use loanapp.Common.{
  starts_with, arith, ◌↔◌, sum_by, ◌++◌, min, not, ◌≤◌, unbalanced, err, All, ◌<◌, keep, ◌≢◌, ◌⊎◌,
  refl, ok, positive_part?, to_upper, trimmed_or_null, is_blank, is_empty, trim, is_space, text_eq,
  none, some, pos, [], ◌≡◌, codes, ◌∷◌, ◌+◌, ℕ, List, Option,
}
use loanapp.Repayment.Settlement.{posting_conserves}

abbrev cents_column : ℕ → ℕ
cents_column n = n

abbrev late_item : Item
late_item = record {
  id = codes "i1";
  installment = 1;
  due_date = 5;
  principal_due = 100;
  interest_due = 20;
  fees_due = 10;
  principal_paid = 0;
  interest_paid = 0;
  fees_paid = 0;
  total_due = 130;
  total_paid = 0;
}

abbrev next_item : Item
next_item = record {
  id = codes "i2";
  installment = 2;
  due_date = 50;
  principal_due = 100;
  interest_due = 20;
  fees_due = 0;
  principal_paid = 0;
  interest_paid = 0;
  fees_paid = 0;
  total_due = 120;
  total_paid = 0;
}

abbrev two_items : List Item
two_items = next_item ∷ late_item ∷ []

abbrev overdue_loan : LoanRow
overdue_loan = record {
  id = codes "a1";
  tenant = codes "t1";
  status = Status.overdue;
  currency = codes "NGN";
  phone = codes "080";
  outstanding_principal = 200;
  outstanding_interest = 40;
  outstanding_fees = 10;
  outstanding_total = 250;
  next_due_date = some 5;
  fully_repaid_at = none;
}

abbrev pool_allocation : CapitalAllocation
pool_allocation = record {
  id = codes "c1";
  pool_id = codes "p1";
  status = AllocationStatus.deployed;
  reserved_amount = 0;
  deployed_amount = 200;
  released_amount = 0;
  written_off_amount = 0;
}

abbrev book_of : Option CapitalAllocation → LoanBook
book_of c = record {
  loan = some overdue_loan;
  rows =
      record { item = late_item; status = pending; paid_at = none }
      ∷ record { item = next_item; status = pending; paid_at = none }
      ∷ [];
  repayments = [];
  capital = c;
  ledger = record { accounts = []; entries = [] };
  history = [];
  effects = [];
}

abbrev payment_by : Role → ℕ → PostInput
payment_by role n = record {
  tenant = codes "t1";
  loan_id = codes "a1";
  amount = pos n;
  posted_at = 9;
  channel = bank_transfer;
  reference = none;
  key = codes "k1";
  actor_id = none;
  role = role;
}

abbrev fresh : Fresh
fresh = record {
  today = 10;
  repayment_id = codes "r1";
  entry_id = codes "e1";
  capital_entry_id = codes "e2";
}

part_run :
    (r : LoanBook × RepaymentResult) × (post_in_transaction cents_column fresh
        (payment_by ops 150)
        150
        (book_of none)
      ≡ ok r)
unfolding mark_overdue updated update_row apply_updates repayment_lines is_paid normalize_status
    share_of is_late ordered_items allocation_of update_of allocate_items allocate check_loan
    has_repayment repayment_entry capital_request repayment_row next_due starts_with is_overdue_note
    note_overdue next_status assert_loan_can_close assert_closing settled_loan settle
    post_in_transaction capital_entry status_after_release release apply_principal_repayment
    role_can_post to_minor add_amount check_lines total find_entry assert_tenant_match
    assert_accounts_match currency_of store_line make_entry record_entry post_entry code_index
    code_eq default_accounts upsert_account ensure_accounts ensure_default_accounts text_eq is_space
    trim is_empty is_blank trimmed_or_null to_upper positive_part? status_index status_eq includes
    assert_valid_transition role_matrix has_key normalize_role is_super_admin role_can_transition
    assert_role_can_transition assert_transition
part_run = (_, refl)

whole_run :
    (r : LoanBook × RepaymentResult) × (post_in_transaction cents_column fresh
        (payment_by system 250)
        250
        (book_of (some pool_allocation))
      ≡ ok r)
unfolding mark_overdue updated update_row apply_updates repayment_lines is_paid normalize_status
    share_of is_late ordered_items allocation_of update_of allocate_items allocate check_loan
    has_repayment repayment_entry capital_request repayment_row next_due starts_with is_overdue_note
    note_overdue next_status assert_loan_can_close assert_closing settled_loan settle
    post_in_transaction capital_entry status_after_release release apply_principal_repayment
    role_can_post to_minor add_amount check_lines total find_entry assert_tenant_match
    assert_accounts_match currency_of store_line make_entry record_entry post_entry code_index
    code_eq default_accounts upsert_account ensure_accounts ensure_default_accounts text_eq is_space
    trim is_empty is_blank trimmed_or_null to_upper positive_part? status_index status_eq includes
    assert_valid_transition role_matrix has_key normalize_role is_super_admin role_can_transition
    assert_role_can_transition assert_transition
whole_run = (_, refl)

posting_conserves_example :
    (part_run.0.1.outstanding_total + 150 ≡ 250)
    × (outstanding_total part_run.0.0.rows ≡ part_run.0.1.outstanding_total)
    × ((l : LoanRow) × (part_run.0.0.loan ≡ some l)
        × (l.outstanding_total ≡ part_run.0.1.outstanding_total))
unfolding text_eq
posting_conserves_example =
    posting_conserves cents_column fresh (payment_by ops 150) 150 (book_of none) {r = part_run.0}
      ((refl, tt), (tt, tt)) part_run.1

posted-le-due_example :
    (0 < 150)
    × (150 ≤ due cents_column fresh (payment_by ops 150) (book_of none))
    × (spent (allocated cents_column fresh (payment_by ops 150) 150 (book_of none)) ≡ 150)
posted-le-due_example =
    posted-le-due cents_column fresh (payment_by ops 150) 150 (book_of none) {r = part_run.0}
      part_run.1

ops_capital_example :
    ((book_of none).capital ≡ none)
    ⊎ ((allocated cents_column fresh (payment_by ops 150) 150 (book_of none)).principal ≡ 0)
ops_capital_example =
    ops_capital cents_column fresh (payment_by ops 150) 150 (book_of none) {r = part_run.0} refl
      part_run.1

repaid_iff_example :
    (whole_run.0.1.outstanding_total ≢ 1)
    × ((whole_run.0.1.status ≡ repaid) ↔ (whole_run.0.1.outstanding_total ≡ 0))
    × ((l : LoanRow) × (whole_run.0.0.loan ≡ some l)
        × ((l.status ≡ repaid) ↔ (whole_run.0.1.outstanding_total ≡ 0)))
repaid_iff_example =
    repaid_iff cents_column fresh (payment_by system 250) 250 (book_of (some pool_allocation))
      {r = whole_run.0} whole_run.1

posting_roles_example :
    ((system ≡ ops) ⊎ ((system ≡ system) ⊎ (system ≡ super_admin)))
    × (overdue_loan.status ≡ Status.overdue
        → whole_run.0.1.status ≡ repaid
        → (system ≡ system) ⊎ (system ≡ super_admin))
posting_roles_example =
    posting_roles cents_column fresh (payment_by system 250) 250 (book_of (some pool_allocation))
      {l = overdue_loan} {r = whole_run.0} refl whole_run.1

overpayment_is_unbalanced_example :
    post_in_transaction cents_column fresh (payment_by ops 300) 300 (book_of none) ≡ err unbalanced
unfolding check_loan text_eq status_eq status_index mark_overdue has_repayment role_can_post
    remaining
overpayment_is_unbalanced_example =
    overpayment_is_unbalanced cents_column fresh (payment_by ops 300) 300 (book_of none)
      {l = overdue_loan} refl (omega arith) (omega arith) refl refl

allocate_conserves_example :
    let a = allocate 9 10 150 two_items in
    (spent a ≡ min 150 (sum_by remaining two_items)) × (spent a + a.amount_left ≡ 150)
allocate_conserves_example = allocate_conserves 9 10 150 two_items

allocate-late_first_example :
    let late = keep (is_late 10) two_items in
    let regular = keep (λ i. not (is_late 10 i)) two_items in
    let first = allocate_items 9 10 150 late in
    let second = allocate_items 9 10 first.amount_left regular in
    ((allocate 9 10 150 two_items).allocations ≡ first.allocations ++ second.allocations)
    × (spent first ≡ min 150 (sum_by remaining late))
    × (second.allocations ≢ [] → sum_by remaining late < 150)
allocate-late_first_example = allocate-late_first 9 10 150 two_items

allocate-Within_example :
    All (For 9 10 (λ i. i.total_due ≤ 130)) (allocate 9 10 150 two_items).updates
allocate-Within_example =
    allocate-Within 9 10 (λ i. i.total_due ≤ 130) 150 two_items (omega arith, (omega arith, tt))
