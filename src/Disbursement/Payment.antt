-- ===== src/Disbursement/Payment.antt =====
-- The ledger entry of a disbursement: what `postEntry` leaves for `disbursement_entry`.
use loanapp.Ledger.Idempotent.{find_entry-post_entry}
use loanapp.Ledger.Accounts.{code_index, code_eq, loan_principal_receivable}
use loanapp.Ledger.Reversal.{lines_total}
use loanapp.Ledger.Refinement.{request_total}
use mathlib.Core.Path.{subst}
use loanapp.Ledger.Cancellation.{to_minor-whole}
use loanapp.Ledger.Refinement.{check_lines-total}
use loanapp.Ledger.Outcome.{post_entry-ok, Stored, Reused}
use loanapp.Treasury.Allocations.{debit_credit}
use loanapp.Ledger.Entries.{
  currency_of, make_entry, find_entry, add_amount, Entry, check_lines, post_entry, CheckedLine,
  Posted, Ledger,
}
use loanapp.Disbursement.Transaction.{paying_account, disbursement_entry}
use loanapp.Disbursement.Records.{
  wallet, bank_transfer, cash, manual, Method, amount_of, method_of, Application, DisburseInput,
  Principal, NewIds,
}
use loanapp.Common.{
  refl, some_same, text_eq_refl, ◌∷◌, sym, ◌∙◌, ap, inr, inl, ◌⊎◌, List, arith, none, some, ◌≡◌,
  Text, ℕ, ok,
}

-- A stored entry that debits the receivable from loan principal and credits the account that the
-- method pays from, each with the amount alone.
abbrev pub EntryPays : DisburseInput → ℕ → Entry → Type 0
EntryPays i amount x =
    (lines_total loan_principal_receivable x.lines ≡ (amount, 0))
    × (lines_total (paying_account (method_of i)) x.lines ≡ (0, amount))

-- The entry of the tenant and key in the ledger afterwards: the one that was there, or a new one
-- that pays the amount.
abbrev pub PaidEntry : DisburseInput → Text → Text → ℕ → Ledger → Ledger → Type 0
PaidEntry i tenant key amount before after =
    (x : Entry) × (find_entry tenant key after.entries ≡ some x)
    × ((find_entry tenant key before.entries ≡ some x)
        ⊎ ((find_entry tenant key before.entries ≡ none) × EntryPays i amount x))

module _ (column : ℕ → ℕ) (f : NewIds) (p : Principal) (i : DisburseInput) (key : Text)
    (a : Application) where
  request_pays :
      let ls = (disbursement_entry f p i a key).lines in
      (request_total loan_principal_receivable ls ≡ (amount_of a, 0))
      × (request_total (paying_account (method_of i)) ls ≡ (0, amount_of a))
  unfolding disbursement_entry request_total add_amount code_eq code_index
  request_pays = by_method (method_of i)
    where
      by_method :
          (m : Method)
          → let ls = debit_credit loan_principal_receivable (paying_account m) (amount_of a) in
            (request_total loan_principal_receivable ls ≡ (amount_of a, 0))
            × (request_total (paying_account m) ls ≡ (0, amount_of a))
      by_method manual = let same = to_minor-whole (amount_of a) in (ground arith, ground arith)
      by_method cash = let same = to_minor-whole (amount_of a) in (ground arith, ground arith)
      by_method bank_transfer =
          let same = to_minor-whole (amount_of a) in (ground arith, ground arith)
      by_method wallet = let same = to_minor-whole (amount_of a) in (ground arith, ground arith)

  pub post_entry-PaidEntry :
      (g : Ledger) {r : Ledger × Posted}
      → post_entry column f.entry_id (disbursement_entry f p i a key) g ≡ ok r
      → PaidEntry i p.tenant key (amount_of a) g r.0
  unfolding disbursement_entry
  post_entry-PaidEntry g {r} e =
      let input = disbursement_entry f p i a key in
      let (x, found, _) = find_entry-post_entry column f.entry_id input g {r = r} e in
      let (checked, lines, _, how) = post_entry-ok column f.entry_id input g {r = r} e in
      (x, found, by_how x found checked lines how)
    where
      by_how :
          (x : Entry)
          → find_entry p.tenant key r.0.entries ≡ some x
          → (checked : List CheckedLine)
          → check_lines (disbursement_entry f p i a key).lines ≡ ok checked
          → Reused column f.entry_id (disbursement_entry f p i a key) g r
            ⊎ Stored column f.entry_id (disbursement_entry f p i a key) checked g r
          → (find_entry p.tenant key g.entries ≡ some x)
            ⊎ ((find_entry p.tenant key g.entries ≡ none) × EntryPays i (amount_of a) x)
      by_how x found checked lines (inl (y, there, same, _)) =
          inl (ap (λ es. find_entry p.tenant key es) (sym same) ∙ found)
      by_how x found checked lines (inr (absent, new, _)) =
          let input = disbursement_entry f p i a key in
          let made = make_entry column f.entry_id input checked in
          let there : find_entry p.tenant key (made ∷ g.entries) ≡ some made =
            unfold find_entry make_entry in rw (text_eq_refl p.tenant, text_eq_refl key) refl in
          let same : made ≡ x =
            some_same (sym there ∙ ap (λ es. find_entry p.tenant key es) (sym new) ∙ found) in
          let currency = currency_of input.currency in
          let receivable =
            check_lines-total column currency loan_principal_receivable input.lines lines in
          let paying =
            check_lines-total column currency (paying_account (method_of i)) input.lines lines in
          inr (
            absent,
            subst (EntryPays i (amount_of a)) same
                (unfold make_entry in (receivable ∙ request_pays.0, paying ∙ request_pays.1)),
          )
