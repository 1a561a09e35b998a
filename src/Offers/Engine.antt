-- ===== src/Offers/Engine.antt =====
-- The schedule of an offer: `computeOffer` of
-- apps/api/src/modules/loan-products/offer-engine.ts. Amounts are minor units and terms are days,
-- both non-negative integers, as the products' and the request's schemas demand; a quotient is
-- that of exact integers. Days are numbered, in the server's time zone.
use loanapp.Common.{
  [], ◌-◌, replicate, ◌&&◌, sum_by, ◌∷◌, ◌/◌, ltb, ◌+◌, ◌*◌, List, if◌then◌else◌, max, ℕ,
}

-- `RepaymentFrequency`
pub data Frequency : Type 0 where
  daily weekly biweekly monthly : Frequency

pub data InterestType : Type 0 where
  flat reducing : InterestType

pub data FeeType : Type 0 where
  fixed percent_of_principal : FeeType

pub data FeeApplyAt : Type 0 where
  upfront per_installment end_of_term : FeeApplyAt

-- `OfferEngineProduct`, without the names that the engine does not read.
pub record Product : Type 0 where
  pub interest_type : InterestType
  pub interest_rate_bps : ℕ
  pub frequency : Frequency
  pub grace_days : ℕ

-- `OfferEngineFee`
pub record Fee : Type 0 where
  pub type : FeeType
  pub amount : ℕ
  pub apply_at : FeeApplyAt

-- `OfferInstallment`
pub record Installment : Type 0 where
  pub installment_no : ℕ
  pub due_day : ℕ
  pub principal : ℕ
  pub interest : ℕ
  pub fees : ℕ
  pub total : ℕ

pub record Totals : Type 0 where
  pub principal : ℕ
  pub interest : ℕ
  pub fees : ℕ
  pub total : ℕ

-- `ComputeOfferResult`
pub record Offer : Type 0 where
  pub schedule : List Installment
  pub totals : Totals
  pub effective_apr_bps : ℕ

pub record OfferInput : Type 0 where
  pub principal_minor : ℕ
  pub tenor_days : ℕ
  pub start_day : ℕ

unfoldable pub installment_count : Frequency → ℕ → ℕ
installment_count daily tenor = max 1 tenor
installment_count weekly tenor = max 1 ((tenor + 6) / 7)
installment_count biweekly tenor = max 1 ((tenor + 13) / 14)
installment_count monthly tenor = max 1 ((tenor + 29) / 30)

unfoldable pub interval_days : Frequency → ℕ
interval_days daily = 1
interval_days weekly = 7
interval_days biweekly = 14
interval_days monthly = 30

-- `values[count - 1] += n`
unfoldable pub add_last : ℕ → List ℕ → List ℕ
add_last n [] = []
add_last n (x ∷ []) = (x + n) ∷ []
add_last n (x ∷ y ∷ xs) = x ∷ add_last n (y ∷ xs)

-- `values[0] += n`
unfoldable pub add_first : ℕ → List ℕ → List ℕ
add_first n [] = []
add_first n (x ∷ xs) = (x + n) ∷ xs

-- `values[i] += spread[i]` for each index.
unfoldable pub add_each : List ℕ → List ℕ → List ℕ
add_each (x ∷ xs) (y ∷ ys) = (x + y) ∷ add_each xs ys
add_each xs _ = xs

unfoldable pub distribute : ℕ → ℕ → List ℕ
distribute total count =
    let base = total / count in add_last (total - base * count) (replicate count base)

abbrev pub year_bps : ℕ
year_bps = 3650000

unfoldable pub fee_total : ℕ → Fee → ℕ
fee_total principal f = elim f.type [
  | fixed ↦ f.amount
  | percent_of_principal ↦ principal * f.amount / 10000
]

-- The loop of the reducing interest: the days and the principal of each installment.
unfoldable pub reducing_parts : ℕ → ℕ → List ℕ → List ℕ → List ℕ
reducing_parts rate left (d ∷ ds) (p ∷ ps) =
    (left * rate * d / year_bps) ∷ reducing_parts rate (left - p) ds ps
reducing_parts rate left _ _ = []

abbrev pub flat_interest : ℕ → OfferInput → ℕ
flat_interest rate i = i.principal_minor * rate * i.tenor_days / year_bps

unfoldable pub interest_parts : Product → OfferInput → ℕ → List ℕ
interest_parts p i count = elim p.interest_type [
  | flat ↦ distribute (flat_interest p.interest_rate_bps i) count
  | reducing ↦
      reducing_parts p.interest_rate_bps i.principal_minor (distribute i.tenor_days count)
        (distribute i.principal_minor count)
]

-- One round of the loop over the fees.
unfoldable pub apply_fee : ℕ → ℕ → Fee → List ℕ → List ℕ
apply_fee principal count f parts =
    let total = fee_total principal f in
    elim f.apply_at [
      | upfront ↦ add_first total parts
      | end_of_term ↦ add_last total parts
      | per_installment ↦ add_each parts (distribute total count)
    ]

unfoldable pub fee_parts : ℕ → ℕ → List Fee → List ℕ → List ℕ
fee_parts principal count [] parts = parts
fee_parts principal count (f ∷ fs) parts =
    fee_parts principal count fs (apply_fee principal count f parts)

-- The loop that fills the schedule, from the installment with the number `k + 1` on.
unfoldable pub installments : ℕ → ℕ → ℕ → List ℕ → List ℕ → List ℕ → List Installment
installments base interval k (p ∷ ps) (i ∷ is) (f ∷ fs) =
    record {
      installment_no = k + 1;
      due_day = base + interval * (k + 1);
      principal = p;
      interest = i;
      fees = f;
      total = p + i + f;
    }
    ∷ installments base interval (k + 1) ps is fs
installments base interval k _ _ _ = []

unfoldable pub schedule_of : Product → List Fee → OfferInput → List Installment
schedule_of p fees i =
    let count = installment_count p.frequency i.tenor_days in
    installments (i.start_day + p.grace_days) (interval_days p.frequency) 0
      (distribute i.principal_minor count) (interest_parts p i count)
      (fee_parts i.principal_minor count fees (replicate count 0))

-- `effectiveAprBps`
unfoldable pub effective_apr : OfferInput → ℕ → ℕ
effective_apr i cost =
    if ltb 0 i.principal_minor && ltb 0 i.tenor_days
    then cost * 365 * 10000 / (i.principal_minor * i.tenor_days)
    else 0

unfoldable pub compute_offer : Product → List Fee → OfferInput → Offer
compute_offer p fees i =
    let schedule = schedule_of p fees i in
    let principal = sum_by (λ x. x.principal) schedule in
    let interest = sum_by (λ x. x.interest) schedule in
    let fees_total = sum_by (λ x. x.fees) schedule in
    record {
      schedule = schedule;
      totals = record {
        principal = principal;
        interest = interest;
        fees = fees_total;
        total = principal + interest + fees_total;
      };
      effective_apr_bps = effective_apr i (interest + fees_total);
    }
