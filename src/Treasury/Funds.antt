-- ===== src/Treasury/Funds.antt =====
-- The capital of a pool over its deployments, repayments and losses.
use mathlib.Core.Path.{subst}
use loanapp.Ledger.Entries.{post_entry, Ledger}
use loanapp.Common.{
  min, refl, none, Option, >>=-eq-ok, inr, ◌∙◌, sym, ok_injective, ap, some_same, Result, ==_iff,
  inl, ◌==◌, Bool-cases, arith, ok, some, if◌then◌else◌, [], ◌∷◌, keep, sum_by, ◌++◌, ◌≤◌, All, ◌+◌,
  ℕ, List, ◌≡◌, Text,
}
use loanapp.Treasury.Allocations.{
  write_off, outstanding_capital, apply_write_off, Capital, CapitalRequest, release,
  apply_principal_repayment, CapitalAllocation,
}
use loanapp.Treasury.Pools.{
  not_behind, first_pool, Pool, deployed_of, losses_of, in_pool, released_of,
}

-- No more is given back and lost than was deployed.
abbrev pub AllocationValid : CapitalAllocation → Type 0
AllocationValid a = a.released_amount + a.written_off_amount ≤ a.deployed_amount

-- Everything that a repayment or a write-off leaves of an allocation.
abbrev pub Kept : CapitalAllocation → CapitalAllocation → Type 0
Kept a b = (b.pool_id ≡ a.pool_id) × (b.deployed_amount ≡ a.deployed_amount)

abbrev pub by_pool : (CapitalAllocation → ℕ) → Text → List CapitalAllocation → ℕ
by_pool f id rows = sum_by f (keep (in_pool id) rows)

pub by_pool-split :
    (f : CapitalAllocation → ℕ) (id : Text) (xs : List CapitalAllocation) (a : CapitalAllocation)
    (ys : List CapitalAllocation)
    → by_pool f id (xs ++ a ∷ ys)
      ≡ by_pool f id xs + (if in_pool id a then f a else 0) + by_pool f id ys
by_pool-split f id [] a ys = ground arith
by_pool-split f id (x ∷ xs) a ys = ground (arith, by_pool-split f id xs a ys)

-- The sums over a pool of valid allocations.
pub valid_sums :
    (id : Text) (rows : List CapitalAllocation)
    → All AllocationValid rows
    → released_of id rows + losses_of id rows ≤ deployed_of id rows
valid_sums id [] h = omega arith
valid_sums id (a ∷ rows) h = let rest = valid_sums id rows h.1 in let one = h.0 in ground arith

pub All-replace :
    (P : CapitalAllocation → Type 0) (xs : List CapitalAllocation) (a b : CapitalAllocation)
    (ys : List CapitalAllocation)
    → All P (xs ++ a ∷ ys)
    → (P a → P b)
    → All P (xs ++ b ∷ ys)
All-replace P [] a b ys h f = (f h.0, h.1)
All-replace P (x ∷ xs) a b ys h f = (h.0, All-replace P xs a b ys h.1 f)

-- What a repayment of principal makes of the loan's allocation.
pub released_row :
    (column : ℕ → ℕ) (fresh : Text) (r : CapitalRequest) (a : CapitalAllocation) (g : Ledger)
    {b : CapitalAllocation} {g' : Ledger}
    → apply_principal_repayment column fresh r (some a, g) ≡ ok (some b, g')
    → Kept a b
      × (b.written_off_amount ≡ a.written_off_amount)
      × (b.released_amount ≡ a.released_amount + r.amount)
unfolding apply_principal_repayment release
released_row column fresh r a g {b} {g'} e = elim (Bool-cases (r.amount == 0)) [
  | inl p ↦
      let z : r.amount ≡ 0 = (==_iff r.amount 0).0 p in
      let s : ◌≡◌ {A = Result Capital} (ok (some a, g)) (ok (some b, g')) = ground arith in
      let same : a ≡ b = some_same (ap (λ (x : Capital). x.0) (ok_injective s)) in
      (
        (
          ap (λ (x : CapitalAllocation). x.pool_id) (sym same),
          ap (λ (x : CapitalAllocation). x.deployed_amount) (sym same),
        ),
        ap (λ (x : CapitalAllocation). x.written_off_amount) (sym same),
        ap (λ (x : CapitalAllocation). x.released_amount) (sym same) ∙ omega arith,
      )
  | inr p ↦
      let s : release column fresh r a g ≡ ok (some b, g') = ground arith in
      let (posted, _, t) = >>=-eq-ok (post_entry column fresh _ g) _ s in
      let same = some_same (ap (λ (x : Capital). x.0) (ok_injective t)) in
      (
        (
          ap (λ (x : CapitalAllocation). x.pool_id) (sym same),
          ap (λ (x : CapitalAllocation). x.deployed_amount) (sym same),
        ),
        ap (λ (x : CapitalAllocation). x.written_off_amount) (sym same),
        ap (λ (x : CapitalAllocation). x.released_amount) (sym same),
      )
]

-- What a write-off makes of the loan's allocation.
pub lost_row :
    (column : ℕ → ℕ) (fresh : Text) (r : CapitalRequest) (a : CapitalAllocation) (g : Ledger)
    {b : CapitalAllocation} {g' : Ledger}
    → apply_write_off column fresh r (some a, g) ≡ ok (some b, g')
    → Kept a b
      × (b.released_amount ≡ a.released_amount)
      × (b.written_off_amount ≡ a.written_off_amount + min (outstanding_capital a) r.amount)
unfolding apply_write_off write_off
lost_row column fresh r a g {b} {g'} e = elim (Bool-cases (r.amount == 0)) [
  | inl p ↦
      let z : r.amount ≡ 0 = (==_iff r.amount 0).0 p in
      let s : ◌≡◌ {A = Result Capital} (ok (some a, g)) (ok (some b, g')) = ground arith in
      moved (some_same (ap (λ (x : Capital). x.0) (ok_injective s))) (omega arith)
  | inr p ↦ elim (Bool-cases (outstanding_capital a == 0)) [
    | inl q ↦
        let z : outstanding_capital a ≡ 0 = (==_iff (outstanding_capital a) 0).0 q in
        let s : ◌≡◌ {A = Result Capital} (ok (some a, g)) (ok (some b, g')) = ground arith in
        moved (some_same (ap (λ (x : Capital). x.0) (ok_injective s))) (omega arith)
    | inr q ↦
        let n = min (outstanding_capital a) r.amount in
        let s : write_off column fresh r n a g ≡ ok (some b, g') = ground arith in
        let (posted, _, t) = >>=-eq-ok (post_entry column fresh _ g) _ s in
        let same = some_same (ap (λ (x : Capital). x.0) (ok_injective t)) in
        (
          (
            ap (λ (x : CapitalAllocation). x.pool_id) (sym same),
            ap (λ (x : CapitalAllocation). x.deployed_amount) (sym same),
          ),
          ap (λ (x : CapitalAllocation). x.released_amount) (sym same),
          ap (λ (x : CapitalAllocation). x.written_off_amount) (sym same),
        )
  ]
]
  where
    moved :
        a ≡ b
        → min (outstanding_capital a) r.amount ≡ 0
        → Kept a b
          × (b.released_amount ≡ a.released_amount)
          × (b.written_off_amount ≡ a.written_off_amount + min (outstanding_capital a) r.amount)
    moved same z = (
      (
        ap (λ (x : CapitalAllocation). x.pool_id) (sym same),
        ap (λ (x : CapitalAllocation). x.deployed_amount) (sym same),
      ),
      ap (λ (x : CapitalAllocation). x.released_amount) (sym same),
      ap (λ (x : CapitalAllocation). x.written_off_amount) (sym same) ∙ omega arith,
    )

-- The pool that comes first has what all pools have.
pub first_pool-All :
    (P : Pool → Type 0) (rows : List CapitalAllocation) (pools : List Pool) {p : Pool}
    → All P pools
    → first_pool rows pools ≡ some p
    → P p
unfolding first_pool
first_pool-All P rows [] h e = cc
first_pool-All P rows (x ∷ pools) {p} h e =
    by_rest (first_pool rows pools) refl e (λ q f. first_pool-All P rows pools {p = q} h.1 f)
  where
    by_rest :
        (o : Option Pool)
        → first_pool rows pools ≡ o
        → elim o as (λ _. Option Pool) [
          | none ↦ some x
          | some q ↦ if not_behind rows x q then some x else some q
        ]
          ≡ some p
        → ((q : Pool) → first_pool rows pools ≡ some q → P q)
        → P p
    by_rest none f s again = subst P (some_same s) h.0
    by_rest (some q) f s again = elim (Bool-cases (not_behind rows x q)) [
      | inl b ↦ let t : some x ≡ some p = ground arith in subst P (some_same t) h.0
      | inr b ↦ let t : some q ≡ some p = ground arith in subst P (some_same t) (again q f)
    ]
