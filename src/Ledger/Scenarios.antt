-- ===== src/Ledger/Scenarios.antt =====
-- A small ledger at which the theorems apply.
use loanapp.Ledger.Refinement.{post_entry-refines, post_balances, balances_of}
use loanapp.Ledger.Journals.{create_journal-stores_ngn}
use loanapp.Ledger.Cancellation.{reverse_entry-cancels, swap}
use loanapp.Ledger.Outcome.{post_entry-enters}
use loanapp.Loan.Roles.{super_admin, ops}
use loanapp.Ledger.Accounts.{
  loan_principal_receivable, interest_receivable, credit, cash, debit, suspense, bank_clearing,
  Direction, Code,
}
use loanapp.Ledger.Acceptance.{post_entry_ok_iff, record_entry-stored, Acceptable, stored}
use loanapp.Ledger.Idempotent.{post_entry_twice, post_entry-UniqueKeys, UniqueKeys}
use loanapp.Ledger.Reversal.{
  assert_balanced, journal_input, one_currency, create_journal, lines_total, plus, account_total,
  reverse_entry, find_by_id, ReverseInput, JournalInput,
}
use loanapp.Common.{
  false, Text, All, trim, map, length, to_upper, ◌<◌, ◌∙◌, true, positive_part?, ◌∷◌, ◌↔◌, ◌*◌, ok,
  pos, some, text_eq, none, ◌≡◌, codes, refl, is_space, ℕ, List, is_blank, [], is_empty,
}
use loanapp.Ledger.Balance.{post_entry-LedgerValid, LedgerValid, KeepsCents}
use loanapp.Ledger.Entries.{
  StoredLine, currency_of, total, check_lines, role_can_reverse, role_can_post, Line, repayment,
  make_entry, CheckedLine, post_entry, find_entry, Entry, Posted, EntryInput, Ledger,
}

abbrev cents_column : ℕ → ℕ
cents_column n = n

cents_column-keeps : KeepsCents cents_column
cents_column-keeps c = refl

abbrev line : Code → Direction → ℕ → Line
line c d cents = record { account = c; direction = d; amount = pos (cents * 10000) }

abbrev payment : EntryInput
payment = record {
  tenant = codes "t1";
  occurred_at = 5;
  type = repayment;
  key = codes "repayment:r1";
  reference_type = codes "LoanApplication";
  reference_id = codes "a1";
  currency = none;
  created_by = none;
  actor_role = some ops;
  memo = none;
  lines =
      line bank_clearing debit 150
      ∷ line interest_receivable credit 50
      ∷ line loan_principal_receivable credit 100
      ∷ [];
}

abbrev empty_ledger : Ledger
empty_ledger = record { accounts = []; entries = [] }

checked_payment : List CheckedLine
checked_payment =
    record { account = bank_clearing; direction = debit; amount = 1500000 }
    ∷ record { account = interest_receivable; direction = credit; amount = 500000 }
    ∷ record { account = loan_principal_receivable; direction = credit; amount = 1000000 }
    ∷ []

after_payment : Ledger × Posted
after_payment = stored cents_column (codes "e1") payment empty_ledger checked_payment

payment_posted : post_entry cents_column (codes "e1") payment empty_ledger ≡ ok after_payment
unfolding after_payment find_entry is_empty is_blank is_space role_can_post check_lines
    positive_part? total checked_payment
payment_posted =
    post_entry-enters cents_column (codes "e1") payment empty_ledger {checked = checked_payment}
      refl refl refl refl refl
    ∙ record_entry-stored cents_column (codes "e1") payment empty_ledger checked_payment refl refl

post_entry_ok_iff_example :
    ((r : Ledger × Posted) × (post_entry cents_column (codes "e1") payment empty_ledger ≡ ok r))
    ↔ Acceptable payment
unfolding is_empty
post_entry_ok_iff_example = post_entry_ok_iff cents_column (codes "e1") payment empty_ledger refl

post_entry-LedgerValid_example : LedgerValid after_payment.0
post_entry-LedgerValid_example =
    post_entry-LedgerValid cents_column cents_column-keeps (codes "e1") payment empty_ledger
      {r = after_payment} (refl, (refl, (refl, tt))) tt payment_posted

post_entry-UniqueKeys_example : UniqueKeys after_payment.0.entries
post_entry-UniqueKeys_example =
    post_entry-UniqueKeys cents_column (codes "e1") payment empty_ledger {r = after_payment} tt
      payment_posted

post_entry_twice_example :
    (h : Ledger) × (post_entry cents_column (codes "e2") payment after_payment.0
      ≡ ok (h, record { id = after_payment.1.id; reused = true }))
    × (h.entries ≡ after_payment.0.entries)
post_entry_twice_example =
    post_entry_twice cents_column (codes "e1") (codes "e2") payment empty_ledger {r = after_payment}
      payment_posted

after_payment-LedgerValid : LedgerValid after_payment.0
after_payment-LedgerValid =
    post_entry-LedgerValid cents_column cents_column-keeps (codes "e1") payment empty_ledger
      {r = after_payment} (refl, (refl, (refl, tt))) tt payment_posted

abbrev undo : ReverseInput
undo = record {
  tenant = codes "t1";
  entry_id = codes "e1";
  reason = codes "posted twice";
  created_by = none;
  actor_role = some super_admin;
  now = 9;
}

abbrev paid : Entry
paid = make_entry cents_column (codes "e1") payment checked_payment

reverse_entry-cancels_example :
    (r : Ledger × Posted) × (reverse_entry cents_column (codes "e2") undo after_payment.0 ≡ ok r)
    × ((x : Entry) × (r.0.entries ≡ x ∷ after_payment.0.entries) × (x.tenant ≡ codes "t1"))
    × ((code : Code)
        → account_total (codes "t1") none code r.0.entries
          ≡ plus
              (swap (lines_total code paid.lines))
              (account_total (codes "t1") none code after_payment.0.entries))
unfolding after_payment stored find_by_id find_entry make_entry is_empty text_eq role_can_reverse
reverse_entry-cancels_example =
    reverse_entry-cancels cents_column cents_column-keeps (codes "e2") undo after_payment.0
      {e = paid} after_payment-LedgerValid refl refl refl refl

abbrev dollars : JournalInput
dollars = record {
  tenant = codes "t1";
  reference_type = codes "Adjustment";
  reference_id = codes "a1";
  key = codes "journal:1";
  created_by = none;
  actor_role = none;
  memo = none;
  occurred_at = 7;
  entries =
      (line cash debit 300, some (codes "USD"))
      ∷ (line suspense credit 300, some (codes " usd "))
      ∷ [];
}

checked_dollars : List CheckedLine
checked_dollars =
    record { account = cash; direction = debit; amount = 3000000 }
    ∷ record { account = suspense; direction = credit; amount = 3000000 }
    ∷ []

after_dollars : Ledger × Posted
after_dollars =
    stored cents_column (codes "e3") (journal_input dollars) empty_ledger checked_dollars

dollars_posted : create_journal cents_column (codes "e3") dollars empty_ledger ≡ ok after_dollars
unfolding create_journal one_currency currency_of to_upper trim is_space text_eq assert_balanced
    after_dollars check_lines positive_part? total journal_input is_blank is_empty role_can_post
    checked_dollars find_entry
dollars_posted =
    post_entry-enters cents_column (codes "e3") (journal_input dollars) empty_ledger
      {checked = checked_dollars} refl refl refl refl refl
    ∙ record_entry-stored cents_column (codes "e3") (journal_input dollars) empty_ledger
        checked_dollars refl refl

create_journal-stores_ngn_example :
    (one_currency dollars.entries ≡ true)
    × (1 < length (map (λ e. e.0) dollars.entries))
    × ((x : Entry) × (after_dollars.0.entries ≡ x ∷ [])
        × All (λ (l : StoredLine). l.currency ≡ codes "NGN") x.lines)
unfolding find_entry
create_journal-stores_ngn_example =
    create_journal-stores_ngn cents_column (codes "e3") dollars empty_ledger {r = after_dollars}
      refl dollars_posted

post_entry-refines_example :
    (balances_of (codes "t1") after_payment.0
      ≡ post_balances payment (balances_of (codes "t1") empty_ledger))
    × (after_payment.1.reused ≡ (balances_of (codes "t1") empty_ledger).seen (codes "repayment:r1"))
    × ((tenant : Text)
        → text_eq (codes "t1") tenant ≡ false
        → balances_of tenant after_payment.0 ≡ balances_of tenant empty_ledger)
post_entry-refines_example =
    post_entry-refines cents_column (codes "e1") payment empty_ledger after_payment.0
      {p = after_payment.1} payment_posted
