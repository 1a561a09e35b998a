-- ===== src/Accrual/Balances.antt =====
-- apps/api/src/common/ledger/loan-balance.service.ts: what a loan owes by the ledger's lines, in the
-- ledger's units.
use loanapp.Ledger.Reversal.{plus}
use loanapp.Ledger.Entries.{add_amount, StoredLine, Totals, Ledger, Entry}
use loanapp.Ledger.Accounts.{
  code_eq, fees_receivable, interest_receivable, loan_principal_receivable, Code,
}
use loanapp.Common.{[], ◌+◌, if◌then◌else◌, ◌&&◌, ◌∷◌, text_eq, Bool, ◌-◌, List, codes, Text, ℕ}

-- `LoanBalances`
pub record LoanBalances : Type 0 where
  pub principal_outstanding : ℕ
  pub interest_outstanding : ℕ
  pub fees_outstanding : ℕ
  pub total_outstanding : ℕ

-- The debits and credits of an account in the lines of an entry.
unfoldable pub amounts_on : Code → List StoredLine → Totals
amounts_on code [] = (0, 0)
amounts_on code (l ∷ ls) =
    if code_eq l.account code
    then add_amount l.direction l.amount (amounts_on code ls)
    else amounts_on code ls

abbrev pub is_of_loan : Text → Text → Entry → Bool
is_of_loan tenant loan e =
    text_eq e.tenant tenant
    && text_eq e.reference_type (codes "LoanApplication")
    && text_eq e.reference_id loan

unfoldable pub loan_amounts : Text → Text → Code → List Entry → Totals
loan_amounts tenant loan code [] = (0, 0)
loan_amounts tenant loan code (e ∷ es) =
    if is_of_loan tenant loan e
    then plus (amounts_on code e.lines) (loan_amounts tenant loan code es)
    else loan_amounts tenant loan code es

-- `max(0, debits - credits)`
unfoldable pub owed : Text → Text → Code → Ledger → ℕ
owed tenant loan code g = let t = loan_amounts tenant loan code g.entries in t.0 - t.1

-- `getBalances`
unfoldable pub get_balances : Text → Text → Ledger → LoanBalances
get_balances tenant loan g =
    let principal = owed tenant loan loan_principal_receivable g in
    let interest = owed tenant loan interest_receivable g in
    let fees = owed tenant loan fees_receivable g in
    record {
      principal_outstanding = principal;
      interest_outstanding = interest;
      fees_outstanding = fees;
      total_outstanding = principal + interest + fees;
    }
