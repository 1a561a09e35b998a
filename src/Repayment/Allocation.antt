-- ===== src/Repayment/Allocation.antt =====
-- How a repayment is spread over the schedule: `allocateRepaymentToSchedule` and its helpers in
-- apps/api/src/loan/repayment/repayment.service.ts. Every amount is a number of cents, the scale of
-- the schema's Decimal(18, 2) columns, on which `money` is the identity; `max(0, a - b)` is the
-- subtraction of the natural numbers. Dates are milliseconds.
use loanapp.Common.{
  not, [], false, ◌==◌, ◌&&◌, none, ◌++◌, some, Option, ◌∷◌, ltb, leb, true, ◌-◌, keep,
  if◌then◌else◌, Text, ◌+◌, Bool, List, min, ℕ,
}

-- `LoanRepaymentScheduleItemStatus`
pub data ItemStatus : Type 0 where
  pending partial paid overdue : ItemStatus

-- `AllocationScheduleItem`
pub record Item : Type 0 where
  pub id : Text
  pub installment : ℕ
  pub due_date : ℕ
  pub principal_due : ℕ
  pub interest_due : ℕ
  pub fees_due : ℕ
  pub principal_paid : ℕ
  pub interest_paid : ℕ
  pub fees_paid : ℕ
  pub total_due : ℕ
  pub total_paid : ℕ

-- `AllocationItem`
pub record AllocationItem : Type 0 where
  pub item_id : Text
  pub installment : ℕ
  pub principal_paid : ℕ
  pub interest_paid : ℕ
  pub fees_paid : ℕ
  pub total_paid : ℕ

-- `AllocationScheduleItemUpdate`
pub record Update : Type 0 where
  pub id : Text
  pub principal_paid : ℕ
  pub interest_paid : ℕ
  pub fees_paid : ℕ
  pub total_paid : ℕ
  pub status : ItemStatus
  pub paid_at : Option ℕ

-- What `allocateRepaymentToSchedule` returns.
pub record Allocated : Type 0 where
  pub allocations : List AllocationItem
  pub updates : List Update
  pub amount_left : ℕ
  pub principal : ℕ
  pub interest : ℕ
  pub fees : ℕ

-- `EPSILON`, one cent.
abbrev pub epsilon : ℕ
epsilon = 1

-- `totalPaid >= totalDue - EPSILON`
unfoldable pub is_paid : ℕ → ℕ → Bool
is_paid total_paid total_due = leb total_due (total_paid + epsilon)

unfoldable pub normalize_status : ℕ → ℕ → ℕ → ℕ → ItemStatus
normalize_status due_date total_paid total_due today =
    if is_paid total_paid total_due
    then paid
    else if ltb due_date today
    then overdue
    else if ltb 0 total_paid
    then partial
    else pending

-- One round of the loop: what the item takes of the amount left, fees first, then interest, then
-- principal.
pub record Share : Type 0 where
  pub fees : ℕ
  pub interest : ℕ
  pub principal : ℕ
  pub left : ℕ

unfoldable pub share_of : ℕ → Item → Share
share_of left i =
    let fees = min (i.fees_due - i.fees_paid) left in
    let left1 = left - fees in
    let interest = min (i.interest_due - i.interest_paid) left1 in
    let left2 = left1 - interest in
    let principal = min (i.principal_due - i.principal_paid) left2 in
    record { fees = fees; interest = interest; principal = principal; left = left2 - principal }

abbrev pub item_paid : Share → ℕ
item_paid s = s.fees + s.interest + s.principal

abbrev pub is_paid_status : ItemStatus → Bool
is_paid_status paid = true
is_paid_status _ = false

-- `item.dueDate < today && !isPaid(item.totalPaid, item.totalDue)`
unfoldable pub is_late : ℕ → Item → Bool
is_late today i = ltb i.due_date today && not (is_paid i.total_paid i.total_due)

-- `[...overdueItems, ...regularItems]`
unfoldable pub ordered_items : ℕ → List Item → List Item
ordered_items today items = keep (is_late today) items ++ keep (λ i. not (is_late today i)) items

unfoldable pub allocation_of : Item → Share → AllocationItem
allocation_of i s = record {
  item_id = i.id;
  installment = i.installment;
  principal_paid = s.principal;
  interest_paid = s.interest;
  fees_paid = s.fees;
  total_paid = item_paid s;
}

module _ (paid_at today : ℕ) where
  unfoldable pub update_of : Item → Share → Update
  update_of i s =
      let total = i.total_paid + item_paid s in
      let status = normalize_status i.due_date total i.total_due today in
      record {
        id = i.id;
        principal_paid = i.principal_paid + s.principal;
        interest_paid = i.interest_paid + s.interest;
        fees_paid = i.fees_paid + s.fees;
        total_paid = total;
        status = status;
        paid_at = if is_paid_status status then some paid_at else none;
      }

  -- The loop over the ordered items: `break` when nothing is left, `continue` past an item that
  -- takes nothing. The totals are summed from the last item back.
  unfoldable pub allocate_items : ℕ → List Item → Allocated
  allocate_items left [] = record {
    allocations = [];
    updates = [];
    amount_left = left;
    principal = 0;
    interest = 0;
    fees = 0;
  }
  allocate_items left (i ∷ items) =
      let s = share_of left i in
      let rest = allocate_items s.left items in
      if left == 0
      then record {
        allocations = [];
        updates = [];
        amount_left = left;
        principal = 0;
        interest = 0;
        fees = 0;
      }
      else if item_paid s == 0
      then rest
      else record {
        allocations = allocation_of i s ∷ rest.allocations;
        updates = update_of i s ∷ rest.updates;
        amount_left = rest.amount_left;
        principal = s.principal + rest.principal;
        interest = s.interest + rest.interest;
        fees = s.fees + rest.fees;
      }

  unfoldable pub allocate : ℕ → List Item → Allocated
  allocate amount items = allocate_items amount (ordered_items today items)
