-- ===== src/Schedule/Sums.antt =====
-- What the installments of a schedule add up to.
use Prim.Native.Nat.{zero}
use loanapp.Schedule.Amortization.{
  rest_of, fees_sum, principal_sum, flat, flat_left, Installment, interest_of, InterestMethod,
  lines, build,
}
use loanapp.Common.{
  add_zero, add_back, ◌∙◌, min, ◌-ℤ◌, refl, ◌-◌, ◌+ℤ◌, [], arith, ap, pos, ◌+◌, ℤ, ◌≡◌, ◌∷◌, length,
  suc, sum_by, List, ℕ,
}

abbrev sum : List ℕ → ℕ
sum xs = sum_by (λ x. x) xs

pub lines-length : (base n remaining : ℕ) → length (lines base n remaining) ≡ n
unfolding lines
lines-length base zero remaining = refl
lines-length base (suc zero) remaining = refl
lines-length base (suc (suc n)) remaining =
    ap suc (lines-length base (suc n) (remaining - min base remaining))

pub lines-sum : (base n remaining : ℕ) → sum (lines base (suc n) remaining) ≡ remaining
unfolding lines
lines-sum base zero remaining = omega arith
lines-sum base (suc n) remaining =
    let rest = lines-sum base n (remaining - min base remaining) in omega arith

-- `schedule.reduce((sum, item) => sum.plus(item.interestDue), 0)`
abbrev pub interest_sum : List Installment → ℤ
interest_sum [] = pos 0
interest_sum (x ∷ xs) = x.interest_due +ℤ interest_sum xs

-- Numbered from `i + 1`.
abbrev pub Numbered : ℕ → List Installment → Type 0
Numbered i [] = Unit {0}
Numbered i (x ∷ xs) = (x.number ≡ i + 1) × Numbered (i + 1) xs

module _ (period date : ℕ → ℕ) (method : InterestMethod) (base : ℕ) where
  pub build-length :
      (i reducing : ℕ) (left : ℤ) (ps fs : List ℕ)
      → length (build period date method base i reducing left ps fs) ≡ length ps
  unfolding build
  build-length i reducing left [] fs = refl
  build-length i reducing left (p ∷ ps) fs = ap suc (
      build-length (i + 1) (reducing - p)
        (flat_left method left (interest_of period method base ps reducing left)) ps (rest_of fs))

  pub build-principal_sum :
      (i reducing : ℕ) (left : ℤ) (ps fs : List ℕ)
      → principal_sum (build period date method base i reducing left ps fs) ≡ sum ps
  unfolding build
  build-principal_sum i reducing left [] fs = refl
  build-principal_sum i reducing left (p ∷ ps) fs =
      ap (λ x. p + x)
        (build-principal_sum (i + 1) (reducing - p)
          (flat_left method left (interest_of period method base ps reducing left)) ps (rest_of fs))

  pub build-fees_sum :
      (i reducing : ℕ) (left : ℤ) (ps fs : List ℕ)
      → length fs ≡ length ps
      → fees_sum (build period date method base i reducing left ps fs) ≡ sum fs
  unfolding build
  build-fees_sum i reducing left [] [] h = refl
  build-fees_sum i reducing left [] (f ∷ fs) h = omega arith
  build-fees_sum i reducing left (p ∷ ps) [] h = omega arith
  build-fees_sum i reducing left (p ∷ ps) (f ∷ fs) h =
      ap (λ x. f + x)
        (build-fees_sum (i + 1) (reducing - p)
          (flat_left method left (interest_of period method base ps reducing left)) ps fs
          (omega arith))

  pub build-Numbered :
      (i reducing : ℕ) (left : ℤ) (ps fs : List ℕ)
      → Numbered i (build period date method base i reducing left ps fs)
  unfolding build
  build-Numbered i reducing left [] fs = tt
  build-Numbered i reducing left (p ∷ ps) fs = (
    refl,
    build-Numbered (i + 1) (reducing - p)
        (flat_left method left (interest_of period method base ps reducing left)) ps (rest_of fs),
  )

pub build-interest_sum :
    (period date : ℕ → ℕ) (base i reducing : ℕ) (left : ℤ) (p : ℕ) (ps fs : List ℕ)
    → interest_sum (build period date flat base i reducing left (p ∷ ps) fs) ≡ left
unfolding build interest_of flat_left
build-interest_sum period date base i reducing left p [] fs = add_zero left
build-interest_sum period date base i reducing left p (q ∷ ps) fs =
    ap (λ x. pos base +ℤ x)
      (build-interest_sum period date base (i + 1) (reducing - p) (left -ℤ pos base) q ps
        (rest_of fs))
    ∙ add_back base left

pub lines-cons :
    (base n remaining : ℕ) → (p : ℕ) × (ps : List ℕ) × (lines base (suc n) remaining ≡ p ∷ ps)
unfolding lines
lines-cons base zero remaining = (_, _, refl)
lines-cons base (suc n) remaining = (_, _, refl)
