-- ===== src/Offers/Scenarios.antt =====
-- An offer at which the theorems apply.
use loanapp.Offers.Interest.{offer_interest}
use loanapp.Common.{map, [], refl, ◌+◌, sum_by, ◌∷◌, ◌/◌, ◌≤◌, ◌*◌, ◌<◌, ◌≡◌, length, List}
use loanapp.Offers.Engine.{
  add_each, add_first, apply_fee, fee_parts, per_installment, reducing_parts, percent_of_principal,
  year_bps, fee_total, interest_parts, add_last, upfront, distribute, fixed, installments, monthly,
  installment_count, reducing, flat, Fee, Product, compute_offer, schedule_of, Offer, InterestType,
  OfferInput,
}
use loanapp.Offers.Endpoint.{active, StoredProduct}
use loanapp.Offers.Totals.{offer_adds_up}

abbrev monthly_product : Product
monthly_product = record {
  interest_type = reducing;
  interest_rate_bps = 1000;
  frequency = monthly;
  grace_days = 3;
}

abbrev product_fees : List Fee
product_fees =
    record { type = fixed; amount = 500; apply_at = upfront }
    ∷ record { type = percent_of_principal; amount = 150; apply_at = per_installment }
    ∷ []

abbrev two_months : OfferInput
two_months = record { principal_minor = 100001; tenor_days = 60; start_day = 20000 }

abbrev stored_product : StoredProduct
stored_product = record {
  product = monthly_product;
  fees = product_fees;
  status = active;
  min_principal = 1000;
  max_principal = 200000;
  min_tenor_days = 30;
  max_tenor_days = 90;
}

two_months_parts :
    map (λ x. x.principal) (schedule_of monthly_product product_fees two_months)
    ≡ 50000 ∷ 50001 ∷ []
unfolding schedule_of installment_count installments distribute add_last interest_parts
    reducing_parts fee_parts apply_fee add_first add_each fee_total
two_months_parts = refl

offer_adds_up_example :
    let o = compute_offer monthly_product product_fees two_months in
    (length o.schedule ≡ installment_count monthly 60)
    × (0 < length o.schedule)
    × (o.totals.principal ≡ 100001)
    × (o.totals.fees ≡ sum_by (fee_total 100001) product_fees)
    × (sum_by (λ x. x.total) o.schedule ≡ o.totals.total)
    × (o.totals.total ≡ 100001 + o.totals.interest + o.totals.fees)
offer_adds_up_example = offer_adds_up monthly_product product_fees two_months

offer_interest_example :
    let o : InterestType → Offer =
      λ t. compute_offer (record monthly_product { interest_type = t }) product_fees two_months in
    ((o flat).totals.interest ≡ 100001 * 1000 * 60 / year_bps)
    × ((o reducing).totals.interest ≤ (o flat).totals.interest)
offer_interest_example = offer_interest monthly_product product_fees two_months

abbrev offered : Offer
offered = compute_offer monthly_product product_fees two_months
