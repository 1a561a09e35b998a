-- ===== src/Offers/Totals.antt =====
-- The sums of an offer: `computeOffer` of
-- apps/api/src/modules/loan-products/offer-engine.ts.
use Prim.Native.Nat.{zero}
use loanapp.Common.{
  ◌∙◌, refl, ◌-◌, [], ◌∷◌, sum_by, ◌+◌, suc, arith, ◌<◌, ◌≡◌, length, replicate, List, ℕ,
}
use loanapp.Offers.Engine.{
  per_installment, end_of_term, add_each, reducing, add_last, flat_interest, add_first, upfront,
  flat, distribute, monthly, interval_days, biweekly, weekly, FeeApplyAt, fee_total, daily,
  InterestType, OfferInput, Frequency, Product, Fee, reducing_parts, schedule_of, compute_offer,
  apply_fee, installment_count, fee_parts, installments, interest_parts,
}
use loanapp.Offers.Parts.{
  length-add_each, sum-add_each, sum-add_last, length-add_last, sum-add_first, length-add_first,
  sum-distribute, length-distribute, sum,
}

pub count-pos : (f : Frequency) (tenor : ℕ) → 0 < installment_count f tenor
unfolding installment_count
count-pos daily tenor = omega arith
count-pos weekly tenor = omega arith
count-pos biweekly tenor = omega arith
count-pos monthly tenor = omega arith

length-reducing_parts :
    (rate left : ℕ) (ds ps : List ℕ)
    → length ds ≡ length ps
    → length (reducing_parts rate left ds ps) ≡ length ps
unfolding reducing_parts
length-reducing_parts rate left [] [] h = refl
length-reducing_parts rate left [] (p ∷ ps) h = omega arith
length-reducing_parts rate left (d ∷ ds) [] h = omega arith
length-reducing_parts rate left (d ∷ ds) (p ∷ ps) h =
    let rest = length-reducing_parts rate (left - p) ds ps (omega arith) in omega arith

length-interest_parts :
    (p : Product) (i : OfferInput) (count : ℕ) → length (interest_parts p i count) ≡ count
unfolding interest_parts
length-interest_parts p i count = by_type p.interest_type
  where
    by_type :
        (t : InterestType)
        → length (elim t [
          | flat ↦ distribute (flat_interest p.interest_rate_bps i) count
          | reducing ↦
              reducing_parts p.interest_rate_bps i.principal_minor
                (distribute i.tenor_days count)
                (distribute i.principal_minor count)
        ])
          ≡ count
    by_type flat = length-distribute (flat_interest p.interest_rate_bps i) count
    by_type reducing =
        let days = length-distribute i.tenor_days count in
        let parts = length-distribute i.principal_minor count in
        length-reducing_parts p.interest_rate_bps i.principal_minor (distribute i.tenor_days count)
          (distribute i.principal_minor count) (omega arith)
        ∙ parts

-- One fee adds its total to the parts, and keeps their number.
apply_fee-adds :
    (principal count : ℕ) (f : Fee) (parts : List ℕ)
    → 0 < count
    → length parts ≡ count
    → (length (apply_fee principal count f parts) ≡ count)
      × (sum (apply_fee principal count f parts) ≡ sum parts + fee_total principal f)
unfolding apply_fee
apply_fee-adds principal count f parts h e = by_time f.apply_at
  where
    by_time :
        (t : FeeApplyAt)
        → let next : List ℕ = elim t [
          | upfront ↦ add_first (fee_total principal f) parts
          | end_of_term ↦ add_last (fee_total principal f) parts
          | per_installment ↦ add_each parts (distribute (fee_total principal f) count)
        ] in
          (length next ≡ count) × (sum next ≡ sum parts + fee_total principal f)
    by_time upfront = (
      length-add_first (fee_total principal f) parts ∙ e,
      sum-add_first (fee_total principal f) parts (omega arith),
    )
    by_time end_of_term = (
      length-add_last (fee_total principal f) parts ∙ e,
      sum-add_last (fee_total principal f) parts (omega arith),
    )
    by_time per_installment =
        let size = length-distribute (fee_total principal f) count in
        let whole = sum-distribute (fee_total principal f) count h in
        let each = sum-add_each parts (distribute (fee_total principal f) count) (omega arith) in
        (length-add_each parts (distribute (fee_total principal f) count) ∙ e, omega arith)

fee_parts-adds :
    (principal count : ℕ) (fees : List Fee) (parts : List ℕ)
    → 0 < count
    → length parts ≡ count
    → (length (fee_parts principal count fees parts) ≡ count)
      × (sum (fee_parts principal count fees parts) ≡ sum parts + sum_by (fee_total principal) fees)
unfolding fee_parts
fee_parts-adds principal count [] parts h e = (e, omega arith)
fee_parts-adds principal count (f ∷ fs) parts h e =
    let one = apply_fee-adds principal count f parts h e in
    let rest = fee_parts-adds principal count fs (apply_fee principal count f parts) h one.0 in
    (rest.0, omega arith)

-- The schedule has one installment for each part.
installments-sums :
    (base interval k : ℕ) (ps is fs : List ℕ)
    → length is ≡ length ps
    → length fs ≡ length ps
    → let schedule = installments base interval k ps is fs in
      (length schedule ≡ length ps)
      × (sum_by (λ x. x.principal) schedule ≡ sum ps)
      × (sum_by (λ x. x.interest) schedule ≡ sum is)
      × (sum_by (λ x. x.fees) schedule ≡ sum fs)
      × (sum_by (λ x. x.total) schedule ≡ sum ps + sum is + sum fs)
unfolding installments
installments-sums base interval k [] [] [] hi hf = (refl, refl, refl, refl, refl)
installments-sums base interval k [] [] (f ∷ fs) hi hf = omega arith
installments-sums base interval k [] (i ∷ is) fs hi hf = omega arith
installments-sums base interval k (p ∷ ps) [] fs hi hf = omega arith
installments-sums base interval k (p ∷ ps) (i ∷ is) [] hi hf = omega arith
installments-sums base interval k (p ∷ ps) (i ∷ is) (f ∷ fs) hi hf =
    let (n, sp, si, sf, st) =
      installments-sums base interval (k + 1) ps is fs (omega arith) (omega arith) in
    (omega arith, omega arith, omega arith, omega arith, omega arith)

sum-zeros : (n : ℕ) → (sum (replicate n 0) ≡ 0) × (length {A = ℕ} (replicate n 0) ≡ n)
sum-zeros zero = (refl, refl)
sum-zeros (suc n) = let rest = sum-zeros n in (omega arith, omega arith)

-- The sums over the schedule, in terms of the parts that it is made of.
pub schedule_sums :
    (p : Product) (fees : List Fee) (i : OfferInput)
    → let count = installment_count p.frequency i.tenor_days in
      let schedule = schedule_of p fees i in
      (length schedule ≡ count)
      × (sum_by (λ x. x.principal) schedule ≡ i.principal_minor)
      × (sum_by (λ x. x.interest) schedule ≡ sum (interest_parts p i count))
      × (sum_by (λ x. x.fees) schedule ≡ sum_by (fee_total i.principal_minor) fees)
      × (sum_by (λ x. x.total) schedule
          ≡ i.principal_minor
            + sum (interest_parts p i count)
            + sum_by (fee_total i.principal_minor) fees)
unfolding schedule_of
schedule_sums p fees i =
    let count = installment_count p.frequency i.tenor_days in
    let h = count-pos p.frequency i.tenor_days in
    let size = length-distribute i.principal_minor count in
    let whole = sum-distribute i.principal_minor count h in
    let interest = length-interest_parts p i count in
    let zeros = sum-zeros count in
    let fee = fee_parts-adds i.principal_minor count fees (replicate count 0) h zeros.1 in
    let (n, sp, si, sf, st) =
      installments-sums (i.start_day + p.grace_days) (interval_days p.frequency) 0
        (distribute i.principal_minor count) (interest_parts p i count)
        (fee_parts i.principal_minor count fees (replicate count 0)) (omega arith) (omega arith) in
    (omega arith, omega arith, omega arith, omega arith, omega arith)

-- The schedule of an offer has the number of installments of its term, at least one; its principal
-- and its fees are those asked for to the last minor unit; and its installments' totals make up
-- the total of the offer, which is the principal, the interest and the fees.
pub offer_adds_up :
    (p : Product) (fees : List Fee) (i : OfferInput)
    → let o = compute_offer p fees i in
      (length o.schedule ≡ installment_count p.frequency i.tenor_days)
      × (0 < length o.schedule)
      × (o.totals.principal ≡ i.principal_minor)
      × (o.totals.fees ≡ sum_by (fee_total i.principal_minor) fees)
      × (sum_by (λ x. x.total) o.schedule ≡ o.totals.total)
      × (o.totals.total ≡ i.principal_minor + o.totals.interest + o.totals.fees)
unfolding compute_offer
offer_adds_up p fees i =
    let (n, sp, si, sf, st) = schedule_sums p fees i in
    let h = count-pos p.frequency i.tenor_days in (n, omega arith, sp, sf, omega arith, omega arith)
