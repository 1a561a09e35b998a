-- ===== src/Treasury/Deployments.antt =====
-- What a deployment of capital leaves: `deployToLoan`.
use loanapp.Ledger.Accounts.{ensure_default_accounts}
use loanapp.Ledger.Idempotent.{find_entry-kept}
use mathlib.Core.Path.{subst}
use loanapp.Ledger.Entries.{find_entry, Entry, post_entry, Ledger}
use loanapp.Common.{
  ◌>>◌, no_active_pool, err, none, Option, >>=-eq-ok, ◌∙◌, sym, ok_injective, ap, Result, ok, some,
  ℕ, List, ◌≡◌, Text,
}
use loanapp.Treasury.Allocations.{Capital, CapitalRequest, CapitalAllocation}
use loanapp.Treasury.Pools.{
  deployed_allocation, assert_can_deploy, resolve_funding_pool, first_pool, deploy_to_loan, Pool,
}

-- What a deployment is: the allocation of a pool that passes the guard.
abbrev pub Deployed : ℕ → List Pool → List CapitalAllocation → CapitalAllocation → Type 0
Deployed amount pools rows a =
    (p : Pool) × (first_pool rows pools ≡ some p)
    × (assert_can_deploy amount p rows ≡ ok tt)
    × (a.pool_id ≡ p.id)
    × (a.deployed_amount ≡ amount)
    × (a.released_amount ≡ 0)
    × (a.written_off_amount ≡ 0)

pub deploy_to_loan-Deployed :
    (column : ℕ → ℕ) (fresh : Text × Text) (r : CapitalRequest) (pools : List Pool)
    (rows : List CapitalAllocation) (g : Ledger) {c : Capital} {a : CapitalAllocation}
    → deploy_to_loan column fresh r pools rows (none, g) ≡ ok (c, a)
    → Deployed r.amount pools rows a × (c.0 ≡ some a)
unfolding deploy_to_loan resolve_funding_pool
deploy_to_loan-Deployed column fresh r pools rows g {c} {a} e =
    let (p, ep, e1) = >>=-eq-ok (resolve_funding_pool r.amount pools rows) _ e in
    let (posted, _, e2) = >>=-eq-ok (post_entry column fresh.1 _ _) _ e1 in
    let same = ok_injective e2 in
    let row : deployed_allocation fresh.0 r.amount p ≡ a =
      ap (λ (x : Capital × CapitalAllocation). x.1) same in
    let held : some (deployed_allocation fresh.0 r.amount p) ≡ c.0 =
      ap (λ (x : Capital × CapitalAllocation). x.0.0) same in
    let (chosen, passed) = by_first (first_pool rows pools) ep in
    unfold deployed_allocation in
    (
      (
        p,
        chosen,
        passed,
        ap (λ (x : CapitalAllocation). x.pool_id) (sym row),
        ap (λ (x : CapitalAllocation). x.deployed_amount) (sym row),
        ap (λ (x : CapitalAllocation). x.released_amount) (sym row),
        ap (λ (x : CapitalAllocation). x.written_off_amount) (sym row),
      ),
      sym held ∙ ap some row,
    )
  where
    by_first :
        (o : Option Pool) {p : Pool}
        → elim o as (λ _. Result Pool) [
          | none ↦ err no_active_pool
          | some q ↦ (do assert_can_deploy r.amount q rows; ok q)
        ]
          ≡ ok p
        → (o ≡ some p) × (assert_can_deploy r.amount p rows ≡ ok tt)
    by_first none s = cc
    by_first (some q) {p} s =
        let (_, passed, t) = >>=-eq-ok (assert_can_deploy r.amount q rows) _ s in
        let same = ok_injective t in
        (ap some same, subst (λ x. assert_can_deploy r.amount x rows ≡ ok tt) same passed)

-- The loan has an allocation afterwards, and a new one has the fresh identifier.
pub deploy_to_loan-held :
    (column : ℕ → ℕ) (fresh : Text × Text) (r : CapitalRequest) (pools : List Pool)
    (rows : List CapitalAllocation) (o : Option CapitalAllocation) (g : Ledger) {c : Capital}
    {a : CapitalAllocation}
    → deploy_to_loan column fresh r pools rows (o, g) ≡ ok (c, a)
    → (c.0 ≡ some a) × (o ≡ none → a.id ≡ fresh.0)
unfolding deploy_to_loan deployed_allocation
deploy_to_loan-held column fresh r pools rows (some x) g {c} {a} e =
    let same = ok_injective e in
    let row : x ≡ a = ap (λ (y : Capital × CapitalAllocation). y.1) same in
    let held : some x ≡ c.0 = ap (λ (y : Capital × CapitalAllocation). y.0.0) same in
    (sym held ∙ ap some row, λ n. cc)
deploy_to_loan-held column fresh r pools rows none g {c} {a} e =
    let (p, ep, e1) = >>=-eq-ok (resolve_funding_pool r.amount pools rows) _ e in
    let (posted, _, e2) = >>=-eq-ok (post_entry column fresh.1 _ _) _ e1 in
    let same = ok_injective e2 in
    let row : deployed_allocation fresh.0 r.amount p ≡ a =
      ap (λ (x : Capital × CapitalAllocation). x.1) same in
    let held : some (deployed_allocation fresh.0 r.amount p) ≡ c.0 =
      ap (λ (x : Capital × CapitalAllocation). x.0.0) same in
    (sym held ∙ ap some row, λ _. ap (λ (x : CapitalAllocation). x.id) (sym row))

-- Entries that were there are found as before.
pub find_entry-deploy_to_loan :
    (column : ℕ → ℕ) (fresh : Text × Text) (r : CapitalRequest) (pools : List Pool)
    (rows : List CapitalAllocation) (g : Ledger) {c : Capital} {a : CapitalAllocation}
    (tenant key : Text) {x : Entry}
    → deploy_to_loan column fresh r pools rows (none, g) ≡ ok (c, a)
    → find_entry tenant key g.entries ≡ some x
    → find_entry tenant key c.1.entries ≡ some x
unfolding deploy_to_loan
find_entry-deploy_to_loan column fresh r pools rows g {c} {a} tenant key {x} e found =
    let (p, ep, e1) = >>=-eq-ok (resolve_funding_pool r.amount pools rows) _ e in
    let (posted, posts, e2) = >>=-eq-ok (post_entry column fresh.1 _ _) _ e1 in
    let ledger : posted.0 ≡ c.1 =
      ap (λ (y : Capital × CapitalAllocation). y.0.1) (ok_injective e2) in
    subst (λ (h : Ledger). find_entry tenant key h.entries ≡ some x) ledger
      (find_entry-kept column fresh.1 _
        (record g { accounts = ensure_default_accounts r.tenant g.accounts }) {r = posted} tenant
        key {x = x} posts found)
