-- ===== src/Ledger/Entries.antt =====
-- Posting to the tenant ledger: `postEntry` of apps/api/src/common/ledger/tenant-ledger.service.ts.
-- An amount is a whole number of units of a ten-thousandth of a cent. `column` is what the database's
-- Decimal(18, 2) column keeps of an amount, and `fresh` the identifier that it gives a new entry.
-- A call returns the new ledger and its answer, or throws, and then its transaction is rolled back.
use loanapp.Common.{
  unbalanced, role_cannot_post, lines_required, tenant_mismatch, trim, key_required, text_eq,
  is_blank, ◌/◌, account_missing, to_upper, ◌>>=◌, ◌>>◌, ◌&&◌, [], ◌==◌, if◌then◌else◌, some, ◌+◌,
  amount_not_positive, err, is_empty, positive_part?, not, false, map, guard, ok, true, Result, ◌∷◌,
  none, some_of, codes, trimmed_or_null, Bool, List, Option, Text, ℕ, ℤ,
}
use loanapp.Ledger.Accounts.{
  code_eq, Code, Direction, debit, credit, Account, is_account, ensure_default_accounts,
}
use loanapp.Loan.Roles.{risk_manager, ops, super_admin, system, Role}

-- Units of an amount to a cent: amounts carry four decimal places below the cent.
abbrev pub units_per_cent : ℕ
units_per_cent = 10000

pub data EntryType : Type 0 where
  disbursement repayment accrual write_off adjustment : EntryType

-- `TenantLedgerLineInput`
pub record Line : Type 0 where
  pub account : Code
  pub direction : Direction
  pub amount : ℤ

-- `TenantLedgerEntryInput`
pub record EntryInput : Type 0 where
  pub tenant : Text
  pub occurred_at : ℕ
  pub type : EntryType
  pub key : Text
  pub reference_type : Text
  pub reference_id : Text
  pub currency : Option Text
  pub created_by : Option Text
  pub actor_role : Option Role
  pub memo : Option Text
  pub lines : List Line

-- A row of `TenantLedgerLine`.
pub record StoredLine : Type 0 where
  pub account : Code
  pub direction : Direction
  pub amount : ℕ
  pub amount_minor : ℕ
  pub currency : Text

-- A row of `TenantLedgerEntry` with its lines.
pub record Entry : Type 0 where
  pub id : Text
  pub tenant : Text
  pub occurred_at : ℕ
  pub type : EntryType
  pub key : Text
  pub reference_type : Text
  pub reference_id : Text
  pub created_by : Option Text
  pub memo : Option Text
  pub lines : List StoredLine

pub record Ledger : Type 0 where
  pub accounts : List Account
  pub entries : List Entry

pub record Posted : Type 0 where
  pub id : Text
  pub reused : Bool

-- `allowedByRole`, with the roles that may post everything.
unfoldable pub role_can_post : Option Role → EntryType → Bool
role_can_post none type = true
role_can_post (some system) type = true
role_can_post (some super_admin) type = true
role_can_post (some ops) disbursement = true
role_can_post (some ops) repayment = true
role_can_post (some ops) accrual = true
role_can_post (some risk_manager) write_off = true
role_can_post (some role) type = false

unfoldable pub role_can_reverse : Option Role → Bool
role_can_reverse none = true
role_can_reverse (some system) = true
role_can_reverse (some super_admin) = true
role_can_reverse (some role) = false

-- `toMinor`: to whole cents, a half cent up.
unfoldable pub to_minor : ℕ → ℕ
to_minor amount = (amount + units_per_cent / 2) / units_per_cent

abbrev pub Totals : Type 0
Totals = ℕ × ℕ

unfoldable pub add_amount : Direction → ℕ → Totals → Totals
add_amount debit n (d, c) = (d + n, c)
add_amount credit n (d, c) = (d, c + n)

-- A line whose amount has been read and found positive.
pub record CheckedLine : Type 0 where
  pub account : Code
  pub direction : Direction
  pub amount : ℕ

-- The loop over the lines: their amounts, and the two sums.
unfoldable pub check_lines : List Line → Result (List CheckedLine)
check_lines [] = ok []
check_lines (l ∷ ls) = elim (positive_part? l.amount) [
  | none ↦ err amount_not_positive
  | some n ↦ check_lines ls >>= λ rest.
      ok (record { account = l.account; direction = l.direction; amount = n } ∷ rest)
]

unfoldable pub total : List CheckedLine → Totals
unfolding add_amount
total [] = (0, 0)
total (l ∷ ls) = add_amount l.direction l.amount (total ls)

abbrev pub balanced : Totals → Bool
balanced (d, c) = d == c

unfoldable pub find_entry : Text → Text → List Entry → Option Entry
find_entry tenant key [] = none
find_entry tenant key (e ∷ es) =
    if text_eq e.tenant tenant && text_eq e.key key then some e else find_entry tenant key es

-- `assertTenantMatch` on the accounts found: they were searched by tenant, so it is the empty
-- tenant that it refuses.
unfoldable pub assert_tenant_match : Text → Text → Result (Unit {0})
assert_tenant_match entity tenant =
    guard (not (is_empty entity) && text_eq entity tenant) tenant_mismatch

unfoldable pub assert_accounts_match : Text → List Code → List Account → Result (Unit {0})
unfolding assert_tenant_match
assert_accounts_match tenant wanted [] = ok tt
assert_accounts_match tenant wanted (a ∷ rest) =
    (if text_eq a.tenant tenant && some_of (code_eq a.seed.code) wanted
      then assert_tenant_match a.tenant tenant
      else ok tt)
    >> assert_accounts_match tenant wanted rest

abbrev pub has_account : Text → List Account → Code → Bool
has_account tenant accounts code = some_of (is_account tenant code) accounts

abbrev pub accounts_exist : Text → List Account → List CheckedLine → Bool
accounts_exist tenant accounts [] = true
accounts_exist tenant accounts (l ∷ ls) =
    has_account tenant accounts l.account && accounts_exist tenant accounts ls

-- `(currency ?? 'NGN').trim().toUpperCase()`
unfoldable pub currency_of : Option Text → Text
currency_of none = codes "NGN"
currency_of (some c) = to_upper (trim c)

abbrev pub is_nil {ℓ} : {A : Type ℓ} → List A → Bool
is_nil [] = true
is_nil (x ∷ xs) = false

module _ (column : ℕ → ℕ) where
  unfoldable pub store_line : Text → CheckedLine → StoredLine
  store_line currency l = record {
    account = l.account;
    direction = l.direction;
    amount = column l.amount;
    amount_minor = to_minor l.amount;
    currency = currency;
  }

  unfoldable pub make_entry : Text → EntryInput → List CheckedLine → Entry
  make_entry fresh i checked = record {
    id = fresh;
    tenant = i.tenant;
    occurred_at = i.occurred_at;
    type = i.type;
    key = i.key;
    reference_type = i.reference_type;
    reference_id = i.reference_id;
    created_by = trimmed_or_null i.created_by;
    memo = trimmed_or_null i.memo;
    lines = map (store_line (currency_of i.currency)) checked;
  }

  -- The part of `postEntry` that reads and writes the database.
  unfoldable pub record_entry :
      Text → EntryInput → List CheckedLine → Ledger → Result (Ledger × Posted)
  record_entry fresh i checked g =
      let accounts = ensure_default_accounts i.tenant g.accounts in
      elim (find_entry i.tenant i.key g.entries) [
        | some e ↦ ok (record g { accounts = accounts }, record { id = e.id; reused = true })
        | none ↦ do
          assert_accounts_match i.tenant (map (λ l. l.account) checked) accounts
          guard (accounts_exist i.tenant accounts checked) account_missing
          ok (
            record { accounts = accounts; entries = make_entry fresh i checked ∷ g.entries },
            record { id = fresh; reused = false },
          )
      ]

  unfoldable pub post_entry : Text → EntryInput → Ledger → Result (Ledger × Posted)
  post_entry fresh i g = do
    guard (not (is_blank i.key)) key_required
    guard (not (is_nil i.lines)) lines_required
    guard (role_can_post i.actor_role i.type) role_cannot_post
    checked ← check_lines i.lines
    guard (balanced (total checked)) unbalanced
    record_entry fresh i checked g
