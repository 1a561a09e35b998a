-- ===== src/Delinquency/Engine.antt =====
-- apps/api/src/modules/loans/delinquency/delinquency-engine.service.ts. Amounts are cents, on which
-- `toCents` is the identity, and times are milliseconds.
use loanapp.Treasury.Pools.{or_else}
use mathlib.Core.Option.{none}
use mathlib.Core.Bool.{false, true}
use loanapp.Loan.Roles.{assert_transition, Role}
use loanapp.Loan.Status.{status_eq, disbursed, Status}
use loanapp.Common.{
  ◌>>◌, map, loan_not_found, err, ◌==◌, [], ◌||◌, ◌/◌, Result, ◌∷◌, ◌+◌, ◌&&◌, some, List, ltb,
  if◌then◌else◌, ◌-◌, not, Bool, ℕ, Option, Text, ok,
}

-- `DelinquencyStatus`
pub data DelinquencyStatus : Type 0 where
  current overdue charged_off : DelinquencyStatus

-- The part of a `LoanRepaymentScheduleItem` row that the engine reads and writes.
pub record ScheduleItem : Type 0 where
  pub id : Text
  pub due_date : ℕ
  pub total_due : ℕ
  pub total_paid : ℕ
  pub is_overdue : Bool
  pub overdue_since : Option ℕ

-- The result of the engine.
pub record Delinquency : Type 0 where
  pub days_past_due : ℕ
  pub overdue_amount : ℕ
  pub status : DelinquencyStatus

-- The part of a `TenantLoanApplication` row that the engine reads and writes.
pub record LoanState : Type 0 where
  pub status : Status
  pub delinquency : Delinquency
  pub calculated_at : Option ℕ

-- A row of `LoanApplicationStatusHistory`; the note tells only the two statuses again.
pub record StatusChange : Type 0 where
  pub from : Status
  pub to : Status
  pub changed_by : Option Text

-- The rows of a loan.
pub record LoanRows : Type 0 where
  pub loan : Option LoanState
  pub items : List ScheduleItem
  pub history : List StatusChange

-- What `computeScheduleItemOverdue` returns.
pub record ItemOverdue : Type 0 where
  pub is_overdue : Bool
  pub overdue_since : Option ℕ
  pub remaining : ℕ

-- `remainingAmount`
abbrev pub remaining_amount : ScheduleItem → ℕ
remaining_amount i = i.total_due - i.total_paid

unfoldable pub compute_item_overdue : ℕ → ScheduleItem → ItemOverdue
compute_item_overdue now i =
    let late = ltb i.due_date now && ltb 0 (remaining_amount i) in
    record {
      is_overdue = late;
      overdue_since = if late then some (or_else i.overdue_since i.due_date) else none;
      remaining = remaining_amount i;
    }

abbrev pub same_bool : Bool → Bool → Bool
same_bool true b = b
same_bool false b = not b

-- `a?.getTime() === b?.getTime()`
abbrev pub same_time : Option ℕ → Option ℕ → Bool
same_time none none = true
same_time (some a) (some b) = a == b
same_time _ _ = false

-- The update of an item, where it is one.
unfoldable pub refresh_item : ℕ → ScheduleItem → ScheduleItem
refresh_item now i =
    let c = compute_item_overdue now i in
    if not (same_bool i.is_overdue c.is_overdue) || not (same_time i.overdue_since c.overdue_since)
    then record i { is_overdue = c.is_overdue; overdue_since = c.overdue_since }
    else i

-- `earliestOverdue` and `overdueAmount`
pub record Found : Type 0 where
  pub earliest : Option ℕ
  pub amount : ℕ

abbrev pub earlier : Option ℕ → ℕ → ℕ
earlier none d = d
earlier (some e) d = if ltb d e then d else e

-- A round of the loop over the items.
unfoldable pub add_item : ℕ → ScheduleItem → Found → Found
add_item now i f =
    let c = compute_item_overdue now i in
    if c.is_overdue
    then record { earliest = some (earlier f.earliest i.due_date); amount = f.amount + c.remaining }
    else f

unfoldable pub scan : ℕ → Found → List ScheduleItem → Found
scan now f [] = f
scan now f (i ∷ is) = scan now (add_item now i f) is

abbrev pub ms_per_day : ℕ
ms_per_day = 86400000

-- `Math.max(0, Math.floor((now - earliestOverdue) / 86_400_000))`
abbrev pub days_since : ℕ → Option ℕ → ℕ
days_since now none = 0
days_since now (some e) = (now - e) / ms_per_day

-- `computeLoanDelinquency`
unfoldable pub compute_delinquency : ℕ → List ScheduleItem → Delinquency
compute_delinquency now items =
    let f = scan now (record { earliest = none; amount = 0 }) items in
    record {
      days_past_due = days_since now f.earliest;
      overdue_amount = f.amount;
      status = if ltb 0 f.amount then overdue else current;
    }

-- `nextLifecycleStatus`
abbrev pub next_status : DelinquencyStatus → Status
next_status overdue = Status.overdue
next_status _ = disbursed

-- `shouldMoveToOverdue || shouldReturnToDisbursed`
unfoldable pub should_move : Status → Status → Bool
should_move from next =
    (status_eq from disbursed && status_eq next Status.overdue)
    || (status_eq from Status.overdue && status_eq next disbursed)

-- `recalcLoanDelinquencyTx`
unfoldable pub recalc_delinquency :
    ℕ → Role → Option Text → LoanRows → Result (LoanRows × Delinquency)
recalc_delinquency now role actor b = elim b.loan [
  | none ↦ err loan_not_found
  | some l ↦
      let d = compute_delinquency now b.items in
      let next = next_status d.status in
      let items = map (refresh_item now) b.items in
      if should_move l.status next
      then (do
        assert_transition role l.status next
        ok (
          record {
            loan = some (record { status = next; delinquency = d; calculated_at = some now });
            items = items;
            history = record { from = l.status; to = next; changed_by = actor } ∷ b.history;
          },
          d,
        ))
      else ok (
        record {
          loan = some (record l { delinquency = d; calculated_at = some now });
          items = items;
          history = b.history;
        },
        d,
      )
]
