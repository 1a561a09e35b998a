-- ===== src/Repayment/Transaction.antt =====
-- The transaction of `RepaymentService.postRepayment`, from the lock on the loan to its last write:
-- apps/api/src/loan/repayment/repayment.service.ts.
use loanapp.Treasury.Allocations.{apply_principal_repayment, CapitalRequest, Capital}
use loanapp.Ledger.Entries.{post_entry, is_nil, repayment, EntryInput}
use loanapp.Repayment.Allocation.{allocate, epsilon, Allocated, Item}
use loanapp.Loan.Roles.{assert_transition, Role}
use loanapp.Common.{
  starts_with, repayment_exists, nothing_allocated, ltb, loan_cannot_close, loan_not_repayable,
  ◌++◌, no_schedule_items, codes, [], other_tenant, ok, ◌==◌, ◌>>◌, ◌&&◌, some, ◌||◌, ◌∷◌, not,
  repayment_not_positive, loan_not_found, keep, trimmed_or_null, text_eq, map, none, guard, leb,
  some_of, err, ◌+◌, ◌>>=◌, positive_part?, Option, Bool, Result, sum_by, if◌then◌else◌, ◌-◌, List,
  ℕ, Text,
}
use loanapp.Loan.Status.{disbursed, repaid, status_eq, Status}
use loanapp.Repayment.Posting.{
  apply_updates, repayment_posted_event, behavior_incremented, repayment_notified, repayment_lines,
  repayment_audited, unpaid, is_overdue_status, mark_overdue, LoanRow, Repayment, HistoryRow,
  PostInput, Fresh, Row, LoanBook,
}

-- The loan must exist, be the tenant's, and be disbursed or overdue.
unfoldable pub check_loan : PostInput → Option LoanRow → Result LoanRow
check_loan i none = err loan_not_found
check_loan i (some l) = do
  guard (text_eq l.tenant i.tenant) other_tenant
  guard (status_eq l.status disbursed || status_eq l.status Status.overdue) loan_not_repayable
  ok l

unfoldable pub has_repayment : Text → List Repayment → Bool
has_repayment key rs = some_of (λ r. text_eq r.key key) rs

unfoldable pub repayment_entry : Fresh → PostInput → LoanRow → ℕ → Allocated → EntryInput
repayment_entry f i l posted a = record {
  tenant = i.tenant;
  occurred_at = i.posted_at;
  type = repayment;
  key = codes "repayment:" ++ f.repayment_id;
  reference_type = codes "LoanApplication";
  reference_id = l.id;
  currency = some l.currency;
  created_by = i.actor_id;
  actor_role = some i.role;
  memo = some (codes "Repayment posted " ++ f.repayment_id);
  lines = repayment_lines i.channel posted a;
}

unfoldable pub capital_request : Fresh → PostInput → LoanRow → Allocated → CapitalRequest
capital_request f i l a = record {
  tenant = i.tenant;
  loan_id = i.loan_id;
  amount = a.principal;
  currency = l.currency;
  key = f.repayment_id;
  actor_id = i.actor_id;
  actor_role = some i.role;
  now = f.today;
}

-- The row that `loanRepayment.create` adds.
unfoldable pub repayment_row : Fresh → PostInput → LoanRow → ℕ → Allocated → Repayment
repayment_row f i l posted a = record {
  id = f.repayment_id;
  key = i.key;
  amount = posted;
  currency = l.currency;
  posted_at = i.posted_at;
  reference = trimmed_or_null i.reference;
  channel = i.channel;
  created_by = trimmed_or_null i.actor_id;
  allocations = a.allocations;
}

-- `reduce` over all items of `max(0, due - paid)`.
abbrev pub principal_left : Row → ℕ
principal_left r = r.item.principal_due - r.item.principal_paid

abbrev pub interest_left : Row → ℕ
interest_left r = r.item.interest_due - r.item.interest_paid

abbrev pub fees_left : Row → ℕ
fees_left r = r.item.fees_due - r.item.fees_paid

abbrev pub outstanding_total : List Row → ℕ
outstanding_total rows =
    sum_by principal_left rows + sum_by interest_left rows + sum_by fees_left rows

-- `allItems.find((item) => item.status !== 'PAID')?.dueDate ?? null`
unfoldable pub next_due : List Row → Option ℕ
next_due [] = none
next_due (r ∷ rows) = if unpaid r then some r.item.due_date else next_due rows

unfoldable pub is_overdue_note : HistoryRow → Bool
is_overdue_note h =
    status_eq h.from disbursed
    && status_eq h.to disbursed
    && starts_with (codes "Loan has overdue installments") h.note

-- A note of overdue installments, once.
unfoldable pub note_overdue : Option Text → List Row → List HistoryRow → List HistoryRow
note_overdue admin rows history =
    if some_of (λ r. is_overdue_status r.status) rows && not (some_of is_overdue_note history)
    then record {
      from = disbursed;
      to = disbursed;
      note = codes "Loan has overdue installments.";
      changed_by = trimmed_or_null admin;
    }
      ∷ history
    else history

unfoldable pub next_status : ℕ → Status → Status
next_status total status =
    if leb total epsilon
    then repaid
    else if status_eq status Status.overdue
    then Status.overdue
    else disbursed

-- `assertLoanCanClose`
unfoldable pub assert_loan_can_close : Status → ℕ → Result (Unit {0})
assert_loan_can_close status total =
    guard (not (status_eq status repaid) || total == 0) loan_cannot_close

-- The role and the transition are checked only when the loan closes.
unfoldable pub assert_closing : Role → Status → Status → Result (Unit {0})
assert_closing role from to =
    if status_eq to repaid then assert_transition role from repaid else ok tt

-- `RepaymentResult`
pub record RepaymentResult : Type 0 where
  pub repayment_id : Text
  pub outstanding_principal : ℕ
  pub outstanding_interest : ℕ
  pub outstanding_fees : ℕ
  pub outstanding_total : ℕ
  pub next_due_date : Option ℕ
  pub status : Status

-- The loan's row after the repayment: its status changes only to REPAID.
unfoldable pub settled_loan : PostInput → Status → List Row → LoanRow → LoanRow
settled_loan i next rows l = record l {
  status = if status_eq next repaid then repaid else l.status;
  outstanding_principal = sum_by principal_left rows;
  outstanding_interest = sum_by interest_left rows;
  outstanding_fees = sum_by fees_left rows;
  outstanding_total = outstanding_total rows;
  next_due_date = next_due rows;
  fully_repaid_at = if status_eq next repaid then some i.posted_at else none;
}

-- The guards and the writes after the ledger and the capital. The outstanding amounts are natural
-- numbers here, so `assertLoanNonNegative` cannot throw.
unfoldable pub settle :
    Fresh
    → PostInput
    → LoanRow
    → Allocated
    → ℕ
    → List Row
    → Capital
    → LoanBook
    → Result (LoanBook × RepaymentResult)
settle f i l a posted rows capital b = do
  let total = outstanding_total rows
  let next = next_status total l.status
  let history = note_overdue i.actor_id rows b.history
  assert_closing i.role l.status next
  assert_loan_can_close next total
  ok (
    record {
      loan = some (settled_loan i next rows l);
      rows = rows;
      repayments = repayment_row f i l posted a ∷ b.repayments;
      capital = capital.0;
      ledger = capital.1;
      history =
          if status_eq next repaid
          then record {
            from = l.status;
            to = repaid;
            note = codes "Loan fully repaid by repayment posting.";
            changed_by = trimmed_or_null i.actor_id;
          }
            ∷ history
          else history;
      effects =
          b.effects
          ++ (repayment_audited (trimmed_or_null i.actor_id) i.role f.repayment_id posted
                a.principal a.interest a.fees next
              ∷ repayment_notified f.repayment_id posted
              ∷ behavior_incremented l.phone posted i.posted_at
              ∷ repayment_posted_event f.repayment_id posted i.channel
              ∷ []);
    },
    record {
      repayment_id = f.repayment_id;
      outstanding_principal = sum_by principal_left rows;
      outstanding_interest = sum_by interest_left rows;
      outstanding_fees = sum_by fees_left rows;
      outstanding_total = total;
      next_due_date = next_due rows;
      status = next;
    },
  )

-- The items on offer to the allocation, in the schedule's order.
abbrev pub pending_items : List Row → List Item
pending_items rows = map (λ r. r.item) (keep unpaid rows)

module _ (column : ℕ → ℕ) (f : Fresh) (i : PostInput) where
  unfoldable pub post_in_transaction : ℕ → LoanBook → Result (LoanBook × RepaymentResult)
  post_in_transaction amount b = do
    l ← check_loan i b.loan
    let rows = mark_overdue f.today b.rows
    let pending = pending_items rows
    guard (not (is_nil pending)) no_schedule_items
    let a = allocate i.posted_at f.today amount pending
    let posted = amount - a.amount_left
    guard (ltb 0 posted) nothing_allocated
    guard (not (has_repayment i.key b.repayments)) repayment_exists
    entry ← post_entry column f.entry_id (repayment_entry f i l posted a) b.ledger
    capital ←
        apply_principal_repayment column f.capital_entry_id (capital_request f i l a)
          (b.capital, entry.0)
    settle f i l a posted (apply_updates a.updates rows) capital b

  -- `amount.lte(0)` is refused before the transaction.
  unfoldable pub post_repayment : LoanBook → Result (LoanBook × RepaymentResult)
  post_repayment b = elim (positive_part? i.amount) [
    | none ↦ err repayment_not_positive
    | some amount ↦ post_in_transaction amount b
  ]
