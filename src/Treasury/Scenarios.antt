-- ===== src/Treasury/Scenarios.antt =====
-- A pool with an initial capital and a cap, at which the theorem on its limits applies.
use loanapp.Treasury.Funds.{AllocationValid}
use loanapp.Ledger.Accounts.{
  ensure_default_accounts, ensure_accounts, upsert_account, default_accounts, code_eq, code_index,
}
use loanapp.Treasury.Pools.{
  summary_available, deployed_allocation, exceeds_utilization, exceeds_max, resolve_available,
  losses_of, assert_can_deploy, first_pool, outstanding_of, resolve_funding_pool, Pool,
  deploy_to_loan,
}
use loanapp.Treasury.Allocations.{CapitalAllocation, Capital, capital_entry, CapitalRequest}
use loanapp.Treasury.Exposure.{OutWithin, Move, pool_within_limits, unused, moved, Funded, Funds}
use loanapp.Ledger.Entries.{
  post_entry, record_entry, make_entry, store_line, currency_of, assert_accounts_match,
  assert_tenant_match, find_entry, total, check_lines, add_amount, to_minor, role_can_post, Ledger,
}
use loanapp.Common.{
  All, refl, ok, positive_part?, to_upper, trimmed_or_null, is_blank, is_empty, trim, is_space,
  text_eq, ◌≤◌, ◌+◌, some, ◌≡◌, ◌∷◌, none, [], ℕ, codes,
}

abbrev pool : Pool
pool = record {
  id = codes "p1";
  created_at = 3;
  rules = record { initial_capital = some 900; max_deployed = some 500; max_utilization = none };
}

abbrev deployment : CapitalRequest
deployment = record {
  tenant = codes "t1";
  loan_id = codes "a1";
  amount = 300;
  currency = codes "NGN";
  key = codes "d1";
  actor_id = none;
  actor_role = none;
  now = 9;
}

abbrev no_entries : Ledger
no_entries = record { accounts = []; entries = [] }

deploy_run :
    (r : Capital × CapitalAllocation) × (deploy_to_loan
        (λ n. n)
        (codes "c1", codes "e1")
        deployment
        (pool ∷ [])
        []
        (none, no_entries)
      ≡ ok r)
unfolding deploy_to_loan resolve_funding_pool first_pool assert_can_deploy resolve_available
    exceeds_max exceeds_utilization deployed_allocation summary_available capital_entry
    role_can_post to_minor add_amount check_lines total find_entry assert_tenant_match
    assert_accounts_match currency_of store_line make_entry record_entry post_entry code_index
    code_eq default_accounts upsert_account ensure_accounts ensure_default_accounts text_eq is_space
    trim is_empty is_blank trimmed_or_null to_upper positive_part?
deploy_run = (_, refl)

abbrev after_deployment : Funds
after_deployment = record { rows = deploy_run.0.1 ∷ []; ledger = deploy_run.0.0.1 }

after_deployment-Funded : Funded (λ n. n) (pool ∷ []) after_deployment
unfolding deploy_run
after_deployment-Funded =
    moved (unused no_entries)
      (Move.deployed (codes "c1", codes "e1") deployment deploy_run.0.1 deploy_run.1 refl)

pool_within_limits_example :
    OutWithin pool pool.rules.initial_capital after_deployment.rows
    × OutWithin pool pool.rules.max_deployed after_deployment.rows
    × (All AllocationValid after_deployment.rows
        → (n : ℕ) → pool.rules.initial_capital ≡ some n
        → outstanding_of pool.id after_deployment.rows + losses_of pool.id after_deployment.rows
          ≤ n)
pool_within_limits_example =
    pool_within_limits (λ n. n) pool (pool ∷ []) {s = after_deployment} ((λ _. refl), tt)
      after_deployment-Funded
