-- ===== src/Schedule/Totals.antt =====
-- A whole schedule: `generateSchedule` of apps/api/src/loan/repayment/amortization.ts, and what it
-- adds up to.
use Prim.Native.Nat.{zero}
use loanapp.Schedule.Sums.{
  build-fees_sum, lines-sum, build-principal_sum, build-Numbered, build-length, build-interest_sum,
  lines-length, lines-cons, interest_sum, Numbered,
}
use mathlib.Core.Path.{subst}
use loanapp.Schedule.Amortization.{
  lines, monthly, biweekly, flat_total, weekly, periods_per_year, build, principal_sum, fees_sum,
  daily, Installment, flat, Frequency, ScheduleInput, correct_fees, correct_principal,
  installment_count, generate_schedule, Arithmetic,
}
use loanapp.Common.{
  ◌∷◌, refl, ◌∙◌, ==_iff, true, suc, ap, pos, false, sym, length, ◌==◌, arith, ◌<◌, ◌≡◌, List, ℕ,
}

correct_principal-exact :
    (total : ℕ) (xs : List Installment) → principal_sum xs ≡ total → correct_principal total xs ≡ xs
unfolding correct_principal
correct_principal-exact total xs h =
    let same : (total == principal_sum xs) ≡ true = (==_iff total (principal_sum xs)).1 (sym h) in
    rw (same, correct_principal) refl

correct_fees-exact :
    (total : ℕ) (xs : List Installment) → fees_sum xs ≡ total → correct_fees total xs ≡ xs
unfolding correct_fees
correct_fees-exact total xs h =
    let same : (total == fees_sum xs) ≡ true = (==_iff total (fees_sum xs)).1 (sym h) in
    rw (same, correct_fees) refl

-- What `generateSchedule` promises.
abbrev pub AddsUp : Arithmetic → ScheduleInput → List Installment → Type 0
AddsUp m i xs =
    (length xs ≡ installment_count i.term_in_days i.frequency)
    × Numbered 0 xs
    × (principal_sum xs ≡ i.principal)
    × (fees_sum xs ≡ i.fees_total)
    × (i.method ≡ flat → interest_sum xs ≡ pos (flat_total m i))

installment_count_positive : (term : ℕ) (f : Frequency) → 0 < term → 0 < installment_count term f
unfolding installment_count
installment_count_positive term daily h = h
installment_count_positive term weekly h = omega arith
installment_count_positive term biweekly h = omega arith
installment_count_positive term monthly h = omega arith

-- The installments before the corrections.
abbrev built : Arithmetic → ScheduleInput → ℕ → List Installment
built m i count =
    build (m.period_interest i.annual_bps (periods_per_year i.frequency))
      (m.add_period i.start_date i.frequency) i.method (m.divide (flat_total m i) count) 0
      i.principal (pos (flat_total m i)) (lines (m.divide i.principal count) count i.principal)
      (lines (m.divide i.fees_total count) count i.fees_total)

built-interest_sum :
    (m : Arithmetic) (i : ScheduleInput) (n : ℕ)
    → i.method ≡ flat
    → interest_sum (built m i (suc n)) ≡ pos (flat_total m i)
built-interest_sum m i n h =
    let (p, ps, e) = lines-cons (m.divide i.principal (suc n)) n i.principal in
    ap
      (λ x. interest_sum (
        build (m.period_interest i.annual_bps (periods_per_year i.frequency))
          (m.add_period i.start_date i.frequency) i.method (m.divide (flat_total m i) (suc n)) 0
          i.principal (pos (flat_total m i)) x
          (lines (m.divide i.fees_total (suc n)) (suc n) i.fees_total)))
      e
    ∙ ap
        (λ x. interest_sum (
          build (m.period_interest i.annual_bps (periods_per_year i.frequency))
            (m.add_period i.start_date i.frequency) x (m.divide (flat_total m i) (suc n)) 0
            i.principal (pos (flat_total m i)) (p ∷ ps)
            (lines (m.divide i.fees_total (suc n)) (suc n) i.fees_total)))
        h
    ∙ build-interest_sum (m.period_interest i.annual_bps (periods_per_year i.frequency))
        (m.add_period i.start_date i.frequency) (m.divide (flat_total m i) (suc n)) 0 i.principal
        (pos (flat_total m i)) p ps (lines (m.divide i.fees_total (suc n)) (suc n) i.fees_total)

built-Sums :
    (m : Arithmetic) (i : ScheduleInput) (count : ℕ)
    → 0 < count
    → (length (built m i count) ≡ count)
      × Numbered 0 (built m i count)
      × (principal_sum (built m i count) ≡ i.principal)
      × (fees_sum (built m i count) ≡ i.fees_total)
      × (i.method ≡ flat → interest_sum (built m i count) ≡ pos (flat_total m i))
built-Sums m i zero h = elim h [ ]
built-Sums m i (suc n) h =
    let period = m.period_interest i.annual_bps (periods_per_year i.frequency) in
    let date = m.add_period i.start_date i.frequency in
    let base = m.divide (flat_total m i) (suc n) in
    let ps = lines (m.divide i.principal (suc n)) (suc n) i.principal in
    let fs = lines (m.divide i.fees_total (suc n)) (suc n) i.fees_total in
    let many = lines-length (m.divide i.principal (suc n)) (suc n) i.principal in
    let as_many = lines-length (m.divide i.fees_total (suc n)) (suc n) i.fees_total ∙ sym many in
    (
      build-length period date i.method base 0 i.principal (pos (flat_total m i)) ps fs ∙ many,
      build-Numbered period date i.method base 0 i.principal (pos (flat_total m i)) ps fs,
      build-principal_sum period date i.method base 0 i.principal (pos (flat_total m i)) ps fs
          ∙ lines-sum (m.divide i.principal (suc n)) n i.principal,
      build-fees_sum period date i.method base 0 i.principal (pos (flat_total m i)) ps fs as_many
          ∙ lines-sum (m.divide i.fees_total (suc n)) n i.fees_total,
      built-interest_sum m i n,
    )

-- The corrections of the last installment find nothing to correct.
generate_schedule-built :
    (m : Arithmetic) (i : ScheduleInput)
    → 0 < installment_count i.term_in_days i.frequency
    → 0 < i.principal
    → generate_schedule m i ≡ built m i (installment_count i.term_in_days i.frequency)
unfolding generate_schedule
generate_schedule-built m i some_count some_money =
    let count = installment_count i.term_in_days i.frequency in
    let (_, _, ps, fs, _) = built-Sums m i count some_count in
    let c : (count == 0) ≡ false = ground arith in
    let p : (i.principal == 0) ≡ false = ground arith in
    let one : correct_principal i.principal (built m i count) ≡ built m i count =
      correct_principal-exact i.principal (built m i count) ps in
    let two : correct_fees i.fees_total (built m i count) ≡ built m i count =
      correct_fees-exact i.fees_total (built m i count) fs in
    rw (c, p, generate_schedule) (ap (correct_fees i.fees_total) one ∙ two)

-- However the quotients are rounded, a loan of a positive principal and term is spread over as many
-- installments as its term has periods, numbered from 1, whose principal and fees add up to the
-- loan's to the cent, and with flat interest their interest to the flat total.
pub generate_schedule-AddsUp :
    (m : Arithmetic) (i : ScheduleInput)
    → 0 < i.principal
    → 0 < i.term_in_days
    → AddsUp m i (generate_schedule m i)
generate_schedule-AddsUp m i some_money some_days =
    let count = installment_count i.term_in_days i.frequency in
    let some_count = installment_count_positive i.term_in_days i.frequency some_days in
    let parts : AddsUp m i (built m i count) = built-Sums m i count some_count in
    subst (AddsUp m i) (sym (generate_schedule-built m i some_count some_money)) parts
