-- ===== src/Offers/Endpoint.antt =====
-- The endpoint that computes an offer: `LoanProductsService.computeOffer` of
-- apps/api/src/modules/loan-products/loan-products.service.ts, from the product that it has found.
use mathlib.Core.Path.{subst}
use mathlib.Core.Option.{none}
use loanapp.Offers.Engine.{compute_offer, Fee, Offer, Product, OfferInput}
use loanapp.Common.{
  ok_injective, guard-not_ok, tenor_outside_limits, principal_outside_limits, product_archived, not,
  >>=-eq-ok, guard, ◌>>◌, sum_by, arith, product_not_found, ok, ◌≤◌, err, false, some, ◌||◌, true,
  List, Result, ◌≡◌, ltb, Bool, Option, ℕ,
}
use loanapp.Offers.Totals.{offer_adds_up}

pub data ProductStatus : Type 0 where
  draft active archived : ProductStatus

-- The part of a `LoanProduct` row, with its fees, that the endpoint reads.
pub record StoredProduct : Type 0 where
  pub product : Product
  pub fees : List Fee
  pub status : ProductStatus
  pub min_principal : ℕ
  pub max_principal : ℕ
  pub min_tenor_days : ℕ
  pub max_tenor_days : ℕ

abbrev pub is_archived : ProductStatus → Bool
is_archived archived = true
is_archived _ = false

-- `n < low || n > high`
abbrev pub outside : ℕ → ℕ → ℕ → Bool
outside low high n = ltb n low || ltb high n

unfoldable pub request_offer : Option StoredProduct → OfferInput → Result Offer
request_offer none i = err product_not_found
request_offer (some p) i = do
  guard (not (is_archived p.status)) product_archived
  guard (not (outside p.min_principal p.max_principal i.principal_minor)) principal_outside_limits
  guard (not (outside p.min_tenor_days p.max_tenor_days i.tenor_days)) tenor_outside_limits
  ok (compute_offer p.product p.fees i)

inside : (low high n : ℕ) → outside low high n ≡ false → (low ≤ n) × (n ≤ high)
inside low high n h = ground arith

-- An offer is made only on a product that is not archived, for a principal and a term within its
-- limits; the borrower is offered this principal, and all of the installments' totals make up what
-- the offer says in total.
pub request_offer-within :
    (p : StoredProduct) (i : OfferInput) {o : Offer}
    → request_offer (some p) i ≡ ok o
    → (is_archived p.status ≡ false)
      × (p.min_principal ≤ o.totals.principal)
      × (o.totals.principal ≤ p.max_principal)
      × (p.min_tenor_days ≤ i.tenor_days)
      × (i.tenor_days ≤ p.max_tenor_days)
      × (o.totals.principal ≡ i.principal_minor)
      × (sum_by (λ x. x.total) o.schedule ≡ o.totals.total)
unfolding request_offer
request_offer-within p i {o} e =
    let (_, g1, e1) = >>=-eq-ok (guard (not (is_archived p.status)) product_archived) _ e in
    let (_, g2, e2) =
      >>=-eq-ok
        (guard (not (outside p.min_principal p.max_principal i.principal_minor))
          principal_outside_limits)
        _ e1 in
    let (_, g3, e3) =
      >>=-eq-ok
        (guard (not (outside p.min_tenor_days p.max_tenor_days i.tenor_days)) tenor_outside_limits)
        _ e2 in
    let money = inside p.min_principal p.max_principal i.principal_minor (guard-not_ok _ _ g2) in
    let days = inside p.min_tenor_days p.max_tenor_days i.tenor_days (guard-not_ok _ _ g3) in
    let (_, _, same, _, whole, _) = offer_adds_up p.product p.fees i in
    subst
      (λ (o : Offer).
        (is_archived p.status ≡ false)
        × (p.min_principal ≤ o.totals.principal)
        × (o.totals.principal ≤ p.max_principal)
        × (p.min_tenor_days ≤ i.tenor_days)
        × (i.tenor_days ≤ p.max_tenor_days)
        × (o.totals.principal ≡ i.principal_minor)
        × (sum_by (λ x. x.total) o.schedule ≡ o.totals.total))
      (ok_injective e3) (guard-not_ok _ _ g1, omega arith, omega arith, days.0, days.1, same, whole)
