-- ===== src/Ledger/Accounts.antt =====
-- The chart of accounts and its seeding: apps/api/src/common/ledger/ledger.accounts.ts and
-- tenant-ledger-accounts.service.ts. An account row is identified by its tenant and code, which the
-- schema declares unique together.
use loanapp.Common.{◌&&◌, ◌==◌, if◌then◌else◌, [], true, ◌∷◌, text_eq, Text, Bool, List, ℕ, codes}
use Prim.Native.String.{String}

pub data Code : Type 0 where
  cash_main cash loans_receivable loan_principal_receivable loan_clearing : Code
  interest_receivable fees_receivable cash_on_hand bank_clearing wallet_clearing : Code
  interest_income fee_income penalty_income write_off_expense suspense : Code
  capital_pool_available capital_pool_deployed capital_pool_repaid capital_pool_losses : Code

unfoldable pub code_index : Code → ℕ
code_index cash_main = 0
code_index cash = 1
code_index loans_receivable = 2
code_index loan_principal_receivable = 3
code_index loan_clearing = 4
code_index interest_receivable = 5
code_index fees_receivable = 6
code_index cash_on_hand = 7
code_index bank_clearing = 8
code_index wallet_clearing = 9
code_index interest_income = 10
code_index fee_income = 11
code_index penalty_income = 12
code_index write_off_expense = 13
code_index suspense = 14
code_index capital_pool_available = 15
code_index capital_pool_deployed = 16
code_index capital_pool_repaid = 17
code_index capital_pool_losses = 18

unfoldable pub code_eq : Code → Code → Bool
code_eq a b = code_index a == code_index b

pub data AccountType : Type 0 where
  asset liability equity income expense : AccountType

pub data Direction : Type 0 where
  debit credit : Direction

-- `TenantLedgerAccountSeed`
pub record AccountSeed : Type 0 where
  pub code : Code
  pub name : String
  pub type : AccountType
  pub normal_balance : Direction
  pub currency : Text
  pub is_system : Bool

abbrev seed : Code → String → AccountType → Direction → AccountSeed
seed c n t d = record {
  code = c;
  name = n;
  type = t;
  normal_balance = d;
  currency = codes "NGN";
  is_system = true;
}

-- `TENANT_LEDGER_DEFAULT_ACCOUNTS`
unfoldable pub default_accounts : List AccountSeed
default_accounts =
    seed cash_main "Cash Main" asset debit
    ∷ seed cash "Cash (Legacy)" asset debit
    ∷ seed loan_principal_receivable "Loan Principal Receivable" asset debit
    ∷ seed loans_receivable "Loans Receivable" asset debit
    ∷ seed loan_clearing "Loan Clearing" asset debit
    ∷ seed interest_receivable "Interest Receivable" asset debit
    ∷ seed interest_income "Interest Income" income credit
    ∷ seed fees_receivable "Fees Receivable" asset debit
    ∷ seed fee_income "Fee Income" income credit
    ∷ seed penalty_income "Penalty Income" income credit
    ∷ seed cash_on_hand "Cash On Hand" asset debit
    ∷ seed bank_clearing "Bank Clearing" asset debit
    ∷ seed wallet_clearing "Wallet Clearing" asset debit
    ∷ seed suspense "Suspense" liability credit
    ∷ seed write_off_expense "Write Off Expense" expense debit
    ∷ seed capital_pool_available "Capital Pool Available" asset debit
    ∷ seed capital_pool_deployed "Capital Pool Deployed" asset debit
    ∷ seed capital_pool_repaid "Capital Pool Repaid" asset debit
    ∷ seed capital_pool_losses "Capital Pool Losses" expense debit
    ∷ []

pub record Account : Type 0 where
  pub tenant : Text
  pub seed : AccountSeed

abbrev pub is_account : Text → Code → Account → Bool
is_account tenant code a = text_eq a.tenant tenant && code_eq a.seed.code code

-- `upsert` on the key (tenant, code): every seeded field is written again.
unfoldable pub upsert_account : Text → AccountSeed → List Account → List Account
upsert_account tenant s [] = record { tenant = tenant; seed = s } ∷ []
upsert_account tenant s (a ∷ rest) =
    if is_account tenant s.code a
    then record { tenant = tenant; seed = s } ∷ rest
    else a ∷ upsert_account tenant s rest

unfoldable pub ensure_accounts : Text → List AccountSeed → List Account → List Account
ensure_accounts tenant [] accounts = accounts
ensure_accounts tenant (s ∷ ss) accounts =
    ensure_accounts tenant ss (upsert_account tenant s accounts)

unfoldable pub ensure_default_accounts : Text → List Account → List Account
unfolding ensure_accounts default_accounts
ensure_default_accounts tenant accounts = ensure_accounts tenant default_accounts accounts
