-- ===== src/Reconciliation/Scenarios.antt =====
-- A payment in suspense that is adjusted, at which the theorem applies.
use loanapp.Reconciliation.Sequences.{Resolutions}
use loanapp.Reconciliation.Once.{resolve_record_once}
use loanapp.Ledger.Reversal.{journal_input, one_currency, assert_balanced, create_journal}
use loanapp.Disbursement.Transaction.{note_or}
use loanapp.Ledger.Entries.{
  post_entry, record_entry, make_entry, store_line, currency_of, assert_accounts_match,
  assert_tenant_match, find_entry, total, check_lines, add_amount, to_minor, role_can_post, is_nil,
}
use loanapp.Ledger.Accounts.{
  ensure_default_accounts, ensure_accounts, upsert_account, default_accounts, code_eq, code_index,
  credit, Code, debit, bank_clearing,
}
use loanapp.Disbursement.Records.{Principal}
use loanapp.Loan.Roles.{system, super_admin, Role}
use loanapp.Reconciliation.Records.{
  is_adjustment, resolved_record, write_off_entry, adjustment_journal, post_write_off, is_write_off,
  post_adjustment, can_transition, is_closed, RecordStatus, target_status, check_record, mismatch,
  update_record, opened, manual_adjustment, find_record, resolve_record, ReconciliationBook,
  ReconciliationRecord, ResolveInput,
}
use loanapp.Common.{
  refl, ok, positive_part?, to_upper, trimmed_or_null, is_blank, is_empty, trim, is_space, text_eq,
  err, Error, ℕ, Text, true, false, ◌⊎◌, pos, ◌≡◌, [], none, some, ◌∷◌, codes,
}

abbrev suspense_record : ReconciliationRecord
suspense_record = record {
  id = codes "r1";
  tenant = codes "t1";
  batch = some opened;
  amount_minor = pos 300;
  currency = codes "NGN";
  status = RecordStatus.suspense;
  resolved_at = none;
  resolved_by = none;
  resolution_type = none;
  resolution_note = none;
}

abbrev suspense_book : ReconciliationBook
suspense_book = record {
  records = suspense_record ∷ [];
  ledger = record { accounts = []; entries = [] };
  history = [];
}

abbrev admin : Role → Principal
admin role = record { tenant = codes "t1"; admin_id = codes "u1"; role = role }

abbrev adjustment_input : ResolveInput
adjustment_input = record {
  resolution = manual_adjustment;
  note = none;
  lines =
      record { account = bank_clearing; direction = debit; amount = pos 3000000 }
      ∷ record { account = Code.suspense; direction = credit; amount = pos 3000000 }
      ∷ [];
}

adjusted_run :
    (b : ReconciliationBook) × (resolve_record
        (λ n. n)
        (codes "e1")
        9
        (admin super_admin)
        (codes "r1")
        adjustment_input
        suspense_book
      ≡ ok b)
unfolding resolve_record find_record update_record check_record target_status can_transition
    post_adjustment post_write_off adjustment_journal write_off_entry resolved_record note_or
    create_journal assert_balanced one_currency journal_input role_can_post to_minor add_amount
    check_lines total find_entry assert_tenant_match assert_accounts_match currency_of store_line
    make_entry record_entry post_entry code_index code_eq default_accounts upsert_account
    ensure_accounts ensure_default_accounts text_eq is_space trim is_empty is_blank trimmed_or_null
    to_upper positive_part?
adjusted_run = (_, refl)

resolve_record_once_example :
    ((r : ReconciliationRecord) × (find_record (codes "t1") (codes "r1") suspense_book.records
        ≡ some r)
      × ((r.status ≡ mismatch) ⊎ (r.status ≡ RecordStatus.suspense))
      × (is_closed r.batch ≡ false))
    × (is_write_off adjustment_input.resolution ≡ true → super_admin ≡ super_admin)
    × (is_adjustment adjustment_input.resolution ≡ true
        → is_nil adjustment_input.lines ≡ false
        → (super_admin ≡ super_admin) ⊎ (super_admin ≡ system))
    × ((c : ReconciliationBook)
        → Resolutions (λ n. n) (codes "t1") adjusted_run.0 c
        → (other : Text) (later : ℕ) (q : Principal) (j : ResolveInput) → q.tenant ≡ codes "t1"
        → (e : Error) × (resolve_record (λ n. n) other later q (codes "r1") j c ≡ err e))
resolve_record_once_example =
    resolve_record_once (λ n. n) (codes "e1") 9 (admin super_admin) (codes "r1") adjustment_input
      suspense_book {b' = adjusted_run.0} adjusted_run.1
