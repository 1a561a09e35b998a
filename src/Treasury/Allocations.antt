-- ===== src/Treasury/Allocations.antt =====
-- The capital behind a loan: `applyPrincipalRepayment` and `applyWriteOff` of
-- apps/api/src/treasury/treasury.service.ts. Amounts are cents; a call takes the allocation of the
-- loan, if there is one, and the ledger, and returns both as they are after it.
use mathlib.Core.Option.{none}
use loanapp.Loan.Roles.{Role}
use loanapp.Ledger.Accounts.{
  capital_pool_deployed, capital_pool_losses, credit, capital_pool_repaid, debit, Code,
}
use loanapp.Common.{
  [], min, ◌++◌, ◌==◌, ◌∷◌, codes, some, ◌*◌, ◌>>=◌, pos, leb, ok, ◌+◌, List, ◌-◌, if◌then◌else◌,
  Result, ℤ, Option, Text, ℕ,
}
use loanapp.Ledger.Entries.{
  units_per_cent, adjustment, post_entry, EntryInput, Line, EntryType, Ledger,
}

pub data AllocationStatus : Type 0 where
  reserved deployed released written_off : AllocationStatus

-- A row of `CapitalAllocation`.
pub record CapitalAllocation : Type 0 where
  pub id : Text
  pub pool_id : Text
  pub status : AllocationStatus
  pub reserved_amount : ℕ
  pub deployed_amount : ℕ
  pub released_amount : ℕ
  pub written_off_amount : ℕ

-- The input of both calls, with the time of the call.
pub record CapitalRequest : Type 0 where
  pub tenant : Text
  pub loan_id : Text
  pub amount : ℕ
  pub currency : Text
  pub key : Text
  pub actor_id : Option Text
  pub actor_role : Option Role
  pub now : ℕ

-- An amount in cents as the amount of a ledger line.
abbrev pub cents : ℕ → ℤ
cents n = pos (n * units_per_cent)

abbrev pub debit_credit : Code → Code → ℕ → List Line
debit_credit d c n =
    record { account = d; direction = debit; amount = cents n }
    ∷ record { account = c; direction = credit; amount = cents n }
    ∷ []

unfoldable pub capital_entry : EntryType → Text → Text → List Line → CapitalRequest → EntryInput
capital_entry type prefix memo lines r = record {
  tenant = r.tenant;
  occurred_at = r.now;
  type = type;
  key = prefix ++ r.key;
  reference_type = codes "LoanApplication";
  reference_id = r.loan_id;
  currency = some r.currency;
  created_by = r.actor_id;
  actor_role = r.actor_role;
  memo = some memo;
  lines = lines;
}

-- `outstanding.lte(0)`, for what is deployed less what is released and written off.
unfoldable pub status_after_release : CapitalAllocation → ℕ → AllocationStatus
status_after_release a released_amount =
    if leb a.deployed_amount (released_amount + a.written_off_amount) then released else deployed

-- `max(0, deployed - released - writtenOff)`
abbrev pub outstanding_capital : CapitalAllocation → ℕ
outstanding_capital a = a.deployed_amount - a.released_amount - a.written_off_amount

abbrev pub Capital : Type 0
Capital = Option CapitalAllocation × Ledger

module _ (column : ℕ → ℕ) (fresh : Text) (r : CapitalRequest) where
  unfoldable pub release : CapitalAllocation → Ledger → Result Capital
  release a g = do
    let next = a.released_amount + r.amount
    posted ←
        post_entry column fresh
          (capital_entry adjustment (codes "capital:repayment:")
            (codes "Capital principal repaid to pool " ++ a.pool_id)
            (debit_credit capital_pool_repaid capital_pool_deployed r.amount) r)
          g
    ok (some (record a { released_amount = next; status = status_after_release a next }), posted.0)

  unfoldable pub apply_principal_repayment : Capital → Result Capital
  apply_principal_repayment (none, g) = ok (none, g)
  apply_principal_repayment (some a, g) = if r.amount == 0 then ok (some a, g) else release a g

  unfoldable pub write_off : ℕ → CapitalAllocation → Ledger → Result Capital
  write_off n a g = do
    posted ←
        post_entry column fresh
          (capital_entry EntryType.write_off (codes "capital:writeoff:")
            (codes "Capital write-off from pool " ++ a.pool_id)
            (debit_credit capital_pool_losses capital_pool_deployed n) r)
          g
    ok (
      some (record a {
        written_off_amount = a.written_off_amount + n;
        status = AllocationStatus.written_off;
      }),
      posted.0,
    )

  unfoldable pub apply_write_off : Capital → Result Capital
  apply_write_off (none, g) = ok (none, g)
  apply_write_off (some a, g) =
      if r.amount == 0
      then ok (some a, g)
      else if outstanding_capital a == 0
      then ok (some a, g)
      else write_off (min (outstanding_capital a) r.amount) a g
