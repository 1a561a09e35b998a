-- ===== src/Treasury/Pools.antt =====
-- The choice of a pool for a loan and the deployment of its capital: `resolveFundingPoolForLoan`,
-- `deployToLoan` and `getPoolSummary` of apps/api/src/treasury/treasury.service.ts, and
-- apps/api/src/treasury/exposure/treasury-exposure.guard.ts. The amounts of the rules are taken as
-- whole cents that are not negative, and the cap on the utilization as millionths. The cap on a
-- risk band is left out: no caller of the guard names a band.
use loanapp.Ledger.Entries.{adjustment, post_entry}
use loanapp.Ledger.Accounts.{capital_pool_available, capital_pool_deployed, ensure_default_accounts}
use loanapp.Common.{
  ◌++◌, codes, pool_utilization, pool_max_deployed, ◌+◌, ◌*◌, ◌>>=◌, ◌&&◌, pool_insufficient, ltb,
  [], not, ok, no_active_pool, guard, leb, err, text_eq, ◌∷◌, ◌>>◌, ◌==◌, false, keep, Result,
  sum_by, Bool, ◌-◌, if◌then◌else◌, some, none, Text, List, ℕ, Option,
}
use loanapp.Treasury.Allocations.{
  debit_credit, capital_entry, Capital, AllocationStatus, CapitalRequest, CapitalAllocation,
}

-- `PoolRules`
pub record Rules : Type 0 where
  pub initial_capital : Option ℕ
  pub max_deployed : Option ℕ
  pub max_utilization : Option ℕ

-- A row of `CapitalPool`.
pub record Pool : Type 0 where
  pub id : Text
  pub created_at : ℕ
  pub rules : Rules

abbrev pub in_pool : Text → CapitalAllocation → Bool
in_pool id a = text_eq a.pool_id id

-- `aggregate({ _sum })` over the allocations of a pool.
abbrev pub deployed_of : Text → List CapitalAllocation → ℕ
deployed_of id rows = sum_by (λ a. a.deployed_amount) (keep (in_pool id) rows)

abbrev pub released_of : Text → List CapitalAllocation → ℕ
released_of id rows = sum_by (λ a. a.released_amount) (keep (in_pool id) rows)

abbrev pub losses_of : Text → List CapitalAllocation → ℕ
losses_of id rows = sum_by (λ a. a.written_off_amount) (keep (in_pool id) rows)

-- `max(0, deployed - released - writtenOff)`
abbrev pub outstanding_of : Text → List CapitalAllocation → ℕ
outstanding_of id rows = deployed_of id rows - released_of id rows - losses_of id rows

abbrev pub or_else : Option ℕ → ℕ → ℕ
or_else none d = d
or_else (some n) d = n

-- `computeAvailableFromRules`, of `getPoolSummary`.
unfoldable pub summary_available : Rules → ℕ → ℕ → ℕ
summary_available r outstanding losses =
    let initial = or_else r.initial_capital (or_else r.max_deployed 0) in
    if initial == 0 then 0 else initial - outstanding - losses

-- `resolveAvailable` of the guard.
unfoldable pub resolve_available : Rules → ℕ → ℕ → ℕ
resolve_available r outstanding losses = elim r.initial_capital [
  | some n ↦ n - outstanding - losses
  | none ↦ elim r.max_deployed [ some n ↦ n - outstanding | none ↦ 99999999999900 ]
]

-- `max < deployedOutstanding + amount`
unfoldable pub exceeds_max : Rules → ℕ → Bool
exceeds_max r total = elim r.max_deployed [ none ↦ false | some n ↦ ltb n total ]

unfoldable pub exceeds_utilization : Rules → ℕ → Bool
exceeds_utilization r total = elim r.max_utilization [
  | none ↦ false
  | some pct ↦ elim r.initial_capital [
    | none ↦ false
    | some base ↦ not (base == 0) && ltb (pct * base) (total * 1000000)
  ]
]

-- `assertCanDeploy`
unfoldable pub assert_can_deploy : ℕ → Pool → List CapitalAllocation → Result (Unit {0})
assert_can_deploy amount p rows = do
  let outstanding = outstanding_of p.id rows
  guard (leb amount (resolve_available p.rules outstanding (losses_of p.id rows))) pool_insufficient
  guard (not (exceeds_max p.rules (outstanding + amount))) pool_max_deployed
  guard (not (exceeds_utilization p.rules (outstanding + amount))) pool_utilization

abbrev pub available : List CapitalAllocation → Pool → ℕ
available rows p = summary_available p.rules (outstanding_of p.id rows) (losses_of p.id rows)

-- The comparison that `availableByPool` is sorted by.
abbrev pub not_behind : List CapitalAllocation → Pool → Pool → Bool
not_behind rows p q =
    let a = available rows p in
    let b = available rows q in if a == b then leb p.created_at q.created_at else ltb b a

-- The first pool in the sorted order.
unfoldable pub first_pool : List CapitalAllocation → List Pool → Option Pool
first_pool rows [] = none
first_pool rows (p ∷ ps) = elim (first_pool rows ps) [
  | none ↦ some p
  | some q ↦ if not_behind rows p q then some p else some q
]

-- `resolveFundingPoolForLoan`, for the tenant's active pools: its loop returns or throws at the
-- first candidate.
unfoldable pub resolve_funding_pool : ℕ → List Pool → List CapitalAllocation → Result Pool
resolve_funding_pool amount pools rows = elim (first_pool rows pools) [
  | none ↦ err no_active_pool
  | some p ↦ do assert_can_deploy amount p rows; ok p
]

unfoldable pub deployed_allocation : Text → ℕ → Pool → CapitalAllocation
deployed_allocation id amount p = record {
  id = id;
  pool_id = p.id;
  status = AllocationStatus.deployed;
  reserved_amount = amount;
  deployed_amount = amount;
  released_amount = 0;
  written_off_amount = 0;
}

-- `deployToLoan`: `rest` are the allocations of the tenant's other loans, `fresh` the identifiers
-- of the new allocation and of its ledger entry. What it answers is the loan's allocation.
-- Its audit `TREASURY.MOVE` is `deploy_effects` of Disbursement.Transaction.
unfoldable pub deploy_to_loan :
    (ℕ → ℕ)
    → Text × Text
    → CapitalRequest
    → List Pool
    → List CapitalAllocation
    → Capital
    → Result (Capital × CapitalAllocation)
deploy_to_loan column fresh r pools rest (some a, g) = ok ((some a, g), a)
deploy_to_loan column fresh r pools rest (none, g) = do
  pool ← resolve_funding_pool r.amount pools rest
  let a = deployed_allocation fresh.0 r.amount pool
  let seeded = record g { accounts = ensure_default_accounts r.tenant g.accounts }
  posted ←
      post_entry column fresh.1
        (capital_entry adjustment (codes "capital:deploy:")
          (codes "Capital deployed from pool " ++ pool.id)
          (debit_credit capital_pool_deployed capital_pool_available r.amount) r)
        seeded
  ok ((some a, posted.0), a)
