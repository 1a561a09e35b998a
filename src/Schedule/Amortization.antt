-- ===== src/Schedule/Amortization.antt =====
-- apps/api/src/loan/repayment/amortization.ts. Amounts are cents, on which `roundMoney` is the
-- identity. The quotients and products that it rounds, and the dates, are parameters: the first are
-- decimal.js's, of limited precision, the second the calendar's. Interest is an integer, since the
-- last part of a flat interest may be negative.
use Prim.Native.Nat.{zero}
use loanapp.Common.{
  min, ◌/◌, ◌||◌, false, true, ◌+ℤ◌, ◌==◌, suc, ◌-◌, sum_by, if◌then◌else◌, [], ◌-ℤ◌, Bool, ◌+◌,
  ◌∷◌, pos, ℤ, List, ℕ,
}

-- `RepaymentFrequency`
pub data Frequency : Type 0 where
  daily weekly biweekly monthly : Frequency

-- `InterestMethod`
pub data InterestMethod : Type 0 where
  reducing_balance flat : InterestMethod

-- `roundMoney(a.div(n))`, `roundMoney(p.times(periodRate))` for a rate in basis points and the
-- periods of a year, the flat interest for a rate and a number of days, and `addPeriod`.
pub record Arithmetic : Type 0 where
  pub divide : ℕ → ℕ → ℕ
  pub period_interest : ℕ → ℕ → ℕ → ℕ
  pub flat_interest : ℕ → ℕ → ℕ → ℕ
  pub add_period : ℕ → Frequency → ℕ → ℕ

-- `GenerateScheduleInput`, with its defaults filled in.
pub record ScheduleInput : Type 0 where
  pub principal : ℕ
  pub annual_bps : ℕ
  pub start_date : ℕ
  pub frequency : Frequency
  pub term_in_days : ℕ
  pub method : InterestMethod
  pub fees_total : ℕ

-- `ScheduleItem`
pub record Installment : Type 0 where
  pub number : ℕ
  pub due_date : ℕ
  pub principal_due : ℕ
  pub interest_due : ℤ
  pub fees_due : ℕ
  pub total_due : ℤ

abbrev pub periods_per_year : Frequency → ℕ
periods_per_year daily = 365
periods_per_year weekly = 52
periods_per_year biweekly = 26
periods_per_year monthly = 12

-- `Math.ceil(n / d)`
abbrev ceil_div : ℕ → ℕ → ℕ
ceil_div n d = (n + (d - 1)) / d

unfoldable pub installment_count : ℕ → Frequency → ℕ
installment_count term daily = term
installment_count term weekly = ceil_div term 7
installment_count term biweekly = ceil_div term 14
installment_count term monthly = ceil_div term 30

-- `principalLines` and `feesLines`: the rounds left, and what remains.
unfoldable pub lines : ℕ → ℕ → ℕ → List ℕ
lines base zero remaining = []
lines base (suc zero) remaining = remaining ∷ []
lines base (suc (suc n)) remaining =
    let piece = min base remaining in piece ∷ lines base (suc n) (remaining - piece)

abbrev pub head_or_zero : List ℕ → ℕ
head_or_zero [] = 0
head_or_zero (x ∷ xs) = x

abbrev pub rest_of : List ℕ → List ℕ
rest_of [] = []
rest_of (x ∷ xs) = xs

abbrev pub is_last : List ℕ → Bool
is_last [] = true
is_last (x ∷ xs) = false

-- `interestDue`, in the round that leaves the lines `ps`.
unfoldable pub interest_of : (ℕ → ℕ) → InterestMethod → ℕ → List ℕ → ℕ → ℤ → ℤ
interest_of period reducing_balance base ps reducing left = pos (period reducing)
interest_of period flat base ps reducing left = if is_last ps then left else pos base

-- `flatInterestRemaining` after a round.
unfoldable pub flat_left : InterestMethod → ℤ → ℤ → ℤ
flat_left reducing_balance left interest = left
flat_left flat left interest = left -ℤ interest

-- The loop over the lines: `i` rounds are over, `reducing` of the principal and `left` of the flat
-- interest remain.
unfoldable pub build :
    (ℕ → ℕ) → (ℕ → ℕ) → InterestMethod → ℕ → ℕ → ℕ → ℤ → List ℕ → List ℕ → List Installment
build period date method base i reducing left [] fs = []
build period date method base i reducing left (p ∷ ps) fs =
    let interest = interest_of period method base ps reducing left in
    record {
      number = i + 1;
      due_date = date (i + 1);
      principal_due = p;
      interest_due = interest;
      fees_due = head_or_zero fs;
      total_due = pos (p + head_or_zero fs) +ℤ interest;
    }
    ∷ build period date method base (i + 1) (reducing - p) (flat_left method left interest) ps
        (rest_of fs)

unfoldable pub update_last : (Installment → Installment) → List Installment → List Installment
update_last f [] = []
update_last f (x ∷ []) = f x ∷ []
update_last f (x ∷ y ∷ xs) = x ∷ update_last f (y ∷ xs)

abbrev pub with_principal : ℕ → Installment → Installment
with_principal n x = record x {
  principal_due = n;
  total_due = pos (n + x.fees_due) +ℤ x.interest_due;
}

abbrev pub with_fees : ℕ → Installment → Installment
with_fees n x = record x { fees_due = n; total_due = pos (x.principal_due + n) +ℤ x.interest_due }

abbrev pub principal_sum : List Installment → ℕ
principal_sum xs = sum_by (λ x. x.principal_due) xs

abbrev pub fees_sum : List Installment → ℕ
fees_sum xs = sum_by (λ x. x.fees_due) xs

-- The corrections of the last installment, where the parts do not add up.
unfoldable pub correct_principal : ℕ → List Installment → List Installment
correct_principal total xs =
    if total == principal_sum xs
    then xs
    else update_last (λ x. with_principal (x.principal_due + total - principal_sum xs) x) xs

unfoldable pub correct_fees : ℕ → List Installment → List Installment
correct_fees total xs =
    if total == fees_sum xs
    then xs
    else update_last (λ x. with_fees (x.fees_due + total - fees_sum xs) x) xs

abbrev pub flat_total : Arithmetic → ScheduleInput → ℕ
flat_total m i = elim i.method [
  | flat ↦ m.flat_interest i.annual_bps i.term_in_days i.principal
  | reducing_balance ↦ 0
]

unfoldable pub generate_schedule : Arithmetic → ScheduleInput → List Installment
generate_schedule m i =
    let count = installment_count i.term_in_days i.frequency in
    if count == 0 || i.principal == 0
    then []
    else correct_fees i.fees_total (
        correct_principal i.principal (
          build (m.period_interest i.annual_bps (periods_per_year i.frequency))
            (m.add_period i.start_date i.frequency) i.method (m.divide (flat_total m i) count) 0
            i.principal (pos (flat_total m i))
            (lines (m.divide i.principal count) count i.principal)
            (lines (m.divide i.fees_total count) count i.fees_total)))
