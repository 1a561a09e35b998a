-- ===== src/Treasury/Exposure.antt =====
-- The limits of a pool, over all that moves its capital.
use mathlib.Core.Path.{subst}
use loanapp.Ledger.Entries.{Ledger}
use loanapp.Treasury.Allocations.{
  apply_write_off, apply_principal_repayment, CapitalRequest, CapitalAllocation,
}
use loanapp.Common.{
  Option, inr, keep, ◌∙◌, inl, ap, Bool-cases, sym, guard-not_ok, guard_ok, pool_max_deployed, not,
  pool_insufficient, guard, >>=-eq-ok, false, arith, leb, ◌++◌, ◌+◌, ◌-◌, ◌≤◌, none, ok, true, ◌∷◌,
  some, [], ◌≡◌, text_eq, Text, All, List, ℕ,
}
use loanapp.Treasury.Pools.{
  in_pool, exceeds_max, resolve_available, losses_of, outstanding_of, released_of, deployed_of,
  deploy_to_loan, Pool, assert_can_deploy,
}
use loanapp.Treasury.Funds.{
  All-replace, first_pool-All, lost_row, by_pool-split, released_row, valid_sums, Kept,
  AllocationValid,
}
use loanapp.Treasury.Deployments.{Deployed, deploy_to_loan-Deployed}

-- The tenant's allocations and ledger.
pub record Funds : Type 0 where
  pub rows : List CapitalAllocation
  pub ledger : Ledger

-- One call: capital is deployed to a loan that had none, a repayment gives principal back, be it
-- more than what is out on the loan, or a loan is written off. The pools and their rules are the
-- same all along: `updatePool`, which changes them, is left out.
pub data Move (column : ℕ → ℕ) (pools : List Pool) : Funds → Funds → Type 0 where
  deployed :
      {s t : Funds} (fresh : Text × Text) (r : CapitalRequest) (a : CapitalAllocation)
      → deploy_to_loan column fresh r pools s.rows (none, s.ledger) ≡ ok ((some a, t.ledger), a)
      → t.rows ≡ a ∷ s.rows
      → Move column pools s t
  repaid :
      {s t : Funds} (fresh : Text) (r : CapitalRequest) (xs ys : List CapitalAllocation)
      (a b : CapitalAllocation)
      → apply_principal_repayment column fresh r (some a, s.ledger) ≡ ok (some b, t.ledger)
      → s.rows ≡ xs ++ a ∷ ys
      → t.rows ≡ xs ++ b ∷ ys
      → Move column pools s t
  lost :
      {s t : Funds} (fresh : Text) (r : CapitalRequest) (xs ys : List CapitalAllocation)
      (a b : CapitalAllocation)
      → apply_write_off column fresh r (some a, s.ledger) ≡ ok (some b, t.ledger)
      → s.rows ≡ xs ++ a ∷ ys
      → t.rows ≡ xs ++ b ∷ ys
      → Move column pools s t

pub data Funded (column : ℕ → ℕ) (pools : List Pool) : Funds → Type 0 where
  unused : (g : Ledger) → Funded column pools (record { rows = []; ledger = g })
  moved : {s t : Funds} → Funded column pools s → Move column pools s t → Funded column pools t

-- Every pool with the id of a pool is that pool.
abbrev pub OnlyPool : Pool → List Pool → Type 0
OnlyPool p pools = All (λ q. text_eq q.id p.id ≡ true → q ≡ p) pools

abbrev WithinInitial : Pool → List CapitalAllocation → Type 0
WithinInitial p rows =
    (n : ℕ) → p.rules.initial_capital ≡ some n → deployed_of p.id rows ≤ released_of p.id rows + n

abbrev pub OutWithin : Pool → Option ℕ → List CapitalAllocation → Type 0
OutWithin p limit rows = (n : ℕ) → limit ≡ some n → outstanding_of p.id rows ≤ n

abbrev FundsValid : Pool → List CapitalAllocation → Type 0
FundsValid p rows =
    (All AllocationValid rows → WithinInitial p rows)
    × OutWithin p p.rules.initial_capital rows
    × OutWithin p p.rules.max_deployed rows

-- What the guard has checked where it lets a deployment pass.
assert_can_deploy-limits :
    (amount : ℕ) (p : Pool) (rows : List CapitalAllocation)
    → assert_can_deploy amount p rows ≡ ok tt
    → ((n : ℕ)
        → p.rules.initial_capital ≡ some n
        → amount ≤ n - outstanding_of p.id rows - losses_of p.id rows)
      × ((n : ℕ) → p.rules.max_deployed ≡ some n → outstanding_of p.id rows + amount ≤ n)
unfolding assert_can_deploy
assert_can_deploy-limits amount p rows e =
    let outstanding = outstanding_of p.id rows in
    let (_, g1, e1) =
      >>=-eq-ok
        (guard (leb amount (resolve_available p.rules outstanding (losses_of p.id rows)))
          pool_insufficient)
        _ e in
    let (_, g2, e2) =
      >>=-eq-ok (guard (not (exceeds_max p.rules (outstanding + amount))) pool_max_deployed) _ e1 in
    let enough = guard_ok _ _ g1 in
    let below = guard-not_ok _ _ g2 in (by_initial enough, by_max below)
  where
    by_initial :
        leb amount (resolve_available p.rules (outstanding_of p.id rows) (losses_of p.id rows))
          ≡ true
        → (n : ℕ) → p.rules.initial_capital ≡ some n
        → amount ≤ n - outstanding_of p.id rows - losses_of p.id rows
    by_initial h n q = unfold resolve_available in ground arith

    by_max :
        exceeds_max p.rules (outstanding_of p.id rows + amount) ≡ false
        → (n : ℕ) → p.rules.max_deployed ≡ some n
        → outstanding_of p.id rows + amount ≤ n
    by_max h n q = unfold exceeds_max in ground arith

new_allocation-FundsValid :
    (amount : ℕ) (p : Pool) (pools : List Pool) (rows : List CapitalAllocation)
    (a : CapitalAllocation)
    → OnlyPool p pools
    → Deployed amount pools rows a
    → FundsValid p rows
    → FundsValid p (a ∷ rows)
new_allocation-FundsValid amount p pools rows a only (q, chosen, passed, id, d, r, w)
      (ini, out, top) =
    elim (Bool-cases (in_pool p.id a)) [
      | inl h ↦
          let here : text_eq q.id p.id ≡ true = ap (λ x. text_eq x p.id) (sym id) ∙ h in
          let same : q ≡ p = first_pool-All _ rows pools only chosen here in
          let limits =
            assert_can_deploy-limits amount p rows
              (subst (λ x. assert_can_deploy amount x rows ≡ ok tt) same passed) in
          (
            λ valid n e.
                let limit = limits.0 n e in
                let before = ini valid.1 n e in
                let sums = valid_sums p.id rows valid.1 in rw (h, keep) (omega arith),
            λ n e. let limit = limits.0 n e in let before = out n e in rw (h, keep) (omega arith),
            λ n e. let limit = limits.1 n e in let before = top n e in rw (h, keep) (omega arith),
          )
      | inr h ↦ (
        λ valid n e. let before = ini valid.1 n e in rw (h, keep) (omega arith),
        λ n e. let before = out n e in rw (h, keep) (omega arith),
        λ n e. let before = top n e in rw (h, keep) (omega arith),
      )
    ]

-- A replacement of one allocation of a pool or of another.
replaced-FundsValid :
    (p : Pool) (xs ys : List CapitalAllocation) (a b : CapitalAllocation)
    → Kept a b
    → (AllocationValid b → AllocationValid a)
    → a.released_amount ≤ b.released_amount
    → a.written_off_amount ≤ b.written_off_amount
    → FundsValid p (xs ++ a ∷ ys)
    → FundsValid p (xs ++ b ∷ ys)
replaced-FundsValid p xs ys a b (pool, d) keeps r w (ini, out, top) =
    let same : in_pool p.id b ≡ in_pool p.id a = ap (λ x. text_eq x p.id) pool in
    let da = by_pool-split (λ x. x.deployed_amount) p.id xs a ys in
    let db = by_pool-split (λ x. x.deployed_amount) p.id xs b ys in
    let ra = by_pool-split (λ x. x.released_amount) p.id xs a ys in
    let rb = by_pool-split (λ x. x.released_amount) p.id xs b ys in
    let wa = by_pool-split (λ x. x.written_off_amount) p.id xs a ys in
    let wb = by_pool-split (λ x. x.written_off_amount) p.id xs b ys in
    (
      λ valid n e.
          let before = ini (All-replace AllocationValid xs b a ys valid keeps) n e in ground arith,
      λ n e. let before = out n e in ground arith,
      λ n e. let before = top n e in ground arith,
    )

Move-FundsValid :
    (column : ℕ → ℕ) (p : Pool) (pools : List Pool) {s t : Funds}
    → OnlyPool p pools
    → Move column pools s t
    → FundsValid p s.rows
    → FundsValid p t.rows
Move-FundsValid column p pools {s} {t} only (deployed fresh r a e q) h =
    let found = (deploy_to_loan-Deployed column fresh r pools s.rows s.ledger e).0 in
    subst (λ rows. FundsValid p rows) (sym q)
      (new_allocation-FundsValid r.amount p pools s.rows a only found h)
Move-FundsValid column p pools {s} {t} only (repaid fresh r xs ys a b e q q') h =
    let (kept, w, rel) = released_row column fresh r a s.ledger e in
    let old : FundsValid p (xs ++ a ∷ ys) = subst (λ rows. FundsValid p rows) q h in
    subst (λ rows. FundsValid p rows) (sym q')
      (replaced-FundsValid p xs ys a b kept (λ v. omega arith) (omega arith) (omega arith) old)
Move-FundsValid column p pools {s} {t} only (lost fresh r xs ys a b e q q') h =
    let (kept, rel, w) = lost_row column fresh r a s.ledger e in
    let old : FundsValid p (xs ++ a ∷ ys) = subst (λ rows. FundsValid p rows) q h in
    subst (λ rows. FundsValid p rows) (sym q')
      (replaced-FundsValid p xs ys a b kept (λ v. omega arith) (omega arith) (omega arith) old)

Funded-FundsValid :
    (column : ℕ → ℕ) (p : Pool) (pools : List Pool) {s : Funds}
    → OnlyPool p pools
    → Funded column pools s
    → FundsValid p s.rows
Funded-FundsValid column p pools only (unused g) =
    (λ valid n e. omega arith, λ n e. omega arith, λ n e. omega arith)
Funded-FundsValid column p pools only (moved before move) =
    Move-FundsValid column p pools only move (Funded-FundsValid column p pools only before)

-- However capital has been deployed to loans, given back by repayments of any amount and written
-- off, while the pools and their rules stay the same, what a pool has outstanding is within its
-- initial capital and within its cap on deployments, where its rules set them; and where no loan
-- has given back and lost more than was deployed to it, what the pool has outstanding and what it
-- has lost are together within its initial capital.
pub pool_within_limits :
    (column : ℕ → ℕ) (p : Pool) (pools : List Pool) {s : Funds}
    → OnlyPool p pools
    → Funded column pools s
    → OutWithin p p.rules.initial_capital s.rows
      × OutWithin p p.rules.max_deployed s.rows
      × (All AllocationValid s.rows
          → (n : ℕ) → p.rules.initial_capital ≡ some n
          → outstanding_of p.id s.rows + losses_of p.id s.rows ≤ n)
pool_within_limits column p pools {s} only funded =
    let (ini, out, top) = Funded-FundsValid column p pools only funded in
    (
      out,
      top,
      λ valid n e.
          let within = ini valid n e in let sums = valid_sums p.id s.rows valid in omega arith,
    )
