-- ===== src/Offers/Interest.antt =====
-- The interest of the two methods compared.
use native.Mathlib.Nat.{div-mul-le_self}
use loanapp.Offers.Parts.{sum-distribute, sum}
use loanapp.Offers.Engine.{
  distribute, flat_interest, installment_count, reducing, flat, Offer, InterestType, OfferInput,
  Fee, year_bps, Product, interest_parts, compute_offer, reducing_parts,
}
use loanapp.Common.{ap, ◌∙◌, [], ◌/◌, ◌≡◌, ◌+◌, ◌-◌, ◌∷◌, arith, ◌*◌, List, ◌≤◌, ℕ}
use loanapp.Offers.Totals.{schedule_sums, count-pos}

scaled : (a b c : ℕ) → a ≤ b → a * c ≤ b * c
scaled a b c h = grind arith

-- What the reducing loop charges is at most the interest on the first principal for all days.
reducing_parts-bound :
    (rate left : ℕ) (ds ps : List ℕ)
    → sum (reducing_parts rate left ds ps) * year_bps ≤ left * rate * sum ds
unfolding reducing_parts
reducing_parts-bound rate left [] ps = omega arith
reducing_parts-bound rate left (d ∷ ds) [] = omega arith
reducing_parts-bound rate left (d ∷ ds) (p ∷ ps) =
    let rest = reducing_parts-bound rate (left - p) ds ps in
    let smaller =
      scaled ((left - p) * rate) (left * rate) (sum ds)
        (scaled (left - p) left rate (omega arith)) in
    let one = div-mul-le_self (left * rate * d) year_bps in
    let split : left * rate * (d + sum ds) ≡ left * rate * d + left * rate * sum ds = omega arith in
    omega arith

-- Flat interest is that of the whole principal over the whole term, rounded down to a minor unit,
-- and the reducing method never charges more.
pub offer_interest :
    (p : Product) (fees : List Fee) (i : OfferInput)
    → let o : InterestType → Offer = λ t. compute_offer (record p { interest_type = t }) fees i in
      ((o flat).totals.interest ≡ i.principal_minor * p.interest_rate_bps * i.tenor_days / year_bps)
      × ((o reducing).totals.interest ≤ (o flat).totals.interest)
unfolding compute_offer interest_parts
offer_interest p fees i =
    let count = installment_count p.frequency i.tenor_days in
    let h = count-pos p.frequency i.tenor_days in
    let level = schedule_sums (record p { interest_type = flat }) fees i in
    let falling = schedule_sums (record p { interest_type = reducing }) fees i in
    let whole = sum-distribute (flat_interest p.interest_rate_bps i) count h in
    let term = sum-distribute i.tenor_days count h in
    let bound =
      reducing_parts-bound p.interest_rate_bps i.principal_minor (distribute i.tenor_days count)
        (distribute i.principal_minor count) in
    let scale : i.principal_minor * p.interest_rate_bps * sum (distribute i.tenor_days count)
        ≡ i.principal_minor * p.interest_rate_bps * i.tenor_days =
      ap (λ n. i.principal_minor * p.interest_rate_bps * n) term in
    (level.2 ∙ whole, omega arith)
