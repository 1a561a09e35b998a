-- ===== src/Accrual/Scenarios.antt =====
-- A loan that has been disbursed in the ledger, at which the theorem applies.
use loanapp.Accrual.Repeats.{accrue_interest_once}
use loanapp.Accrual.Balances.{amounts_on, loan_amounts, owed, get_balances}
use loanapp.Ledger.Accounts.{
  ensure_default_accounts, ensure_accounts, upsert_account, default_accounts, code_eq, code_index,
  debit, loan_principal_receivable,
}
use loanapp.Loan.Status.{status_eq, status_index, disbursed}
use loanapp.Loan.Roles.{super_admin, ops}
use loanapp.Disbursement.Records.{Principal}
use loanapp.Ledger.Entries.{
  post_entry, record_entry, make_entry, store_line, currency_of, assert_accounts_match,
  assert_tenant_match, find_entry, total, check_lines, add_amount, to_minor, role_can_post,
  disbursement, Entry,
}
use loanapp.Accrual.Interest.{
  accrual_entry, amount_to_accrue, accrue_loan, accrue_interest, AccrualBook, AccrualInput,
}
use loanapp.Common.{
  refl, positive_part?, to_upper, trimmed_or_null, is_blank, is_empty, trim, is_space, text_eq, ◌∷◌,
  ok, [], false, true, ◌/◌, none, ◌*◌, ◌⊎◌, some, ◌≡◌, ℕ, codes,
}

abbrev disbursed_entry : Entry
disbursed_entry = record {
  id = codes "e1";
  tenant = codes "t1";
  occurred_at = 5;
  type = disbursement;
  key = codes "k1";
  reference_type = codes "LoanApplication";
  reference_id = codes "a1";
  created_by = none;
  memo = none;
  lines =
      record {
        account = loan_principal_receivable;
        direction = debit;
        amount = 5000000;
        amount_minor = 500;
        currency = codes "NGN";
      }
      ∷ [];
}

abbrev accrual_book : AccrualBook
accrual_book = record {
  loan = some (record {
    id = codes "a1";
    currency = codes "NGN";
    status = disbursed;
    accrual_paused = false;
    annual_rate = some 20;
    override_rate = none;
    last_accrued_at = none;
    updated_at = 5;
  });
  ledger = record { accounts = []; entries = disbursed_entry ∷ [] };
}

abbrev officer : Principal
officer = record { tenant = codes "t1"; admin_id = codes "u1"; role = ops }

abbrev two_days : AccrualInput
two_days = record { through_date = codes "1970-01-03"; through = 172800000 }

abbrev simple_interest : ℕ → ℕ → ℕ → ℕ
simple_interest principal rate days = principal * rate * days / 36500

accrual_run :
    (b : AccrualBook) × (accrue_interest
        (λ n. n)
        simple_interest
        true
        (codes "e2")
        officer
        two_days
        accrual_book
      ≡ ok b)
unfolding accrue_interest accrue_loan amount_to_accrue accrual_entry get_balances owed loan_amounts
    amounts_on role_can_post to_minor add_amount check_lines total find_entry assert_tenant_match
    assert_accounts_match currency_of store_line make_entry record_entry post_entry code_index
    code_eq default_accounts upsert_account ensure_accounts ensure_default_accounts text_eq is_space
    trim is_empty is_blank trimmed_or_null to_upper positive_part? status_index status_eq
accrual_run = (_, refl)

accrue_interest_once_example :
    ((accrual_run.0 ≡ accrual_book) ⊎ ((ops ≡ ops) ⊎ (ops ≡ super_admin)))
    × (accrue_interest (λ n. n) simple_interest true (codes "e3") officer two_days accrual_run.0
        ≡ ok accrual_run.0)
accrue_interest_once_example =
    accrue_interest_once (λ n. n) simple_interest (codes "e2") (codes "e3") officer two_days
      accrual_book {b' = accrual_run.0} refl accrual_run.1
