-- ===== src/Delinquency/Figures.antt =====
-- A recalculation by SYSTEM, from the rows to its figures and the loan's status.
use loanapp.Delinquency.Recalculation.{StatusAfter, recalc_delinquency-Recalculated, system_moves}
use loanapp.Delinquency.Overdue.{compute_delinquency_lem, EarliestDue, overdue_items}
use loanapp.Loan.Roles.{system}
use loanapp.Loan.Status.{status_index, disbursed, status_eq, Status}
use loanapp.Delinquency.Engine.{
  refresh_item, ms_per_day, remaining_amount, Delinquency, LoanState, next_status,
  DelinquencyStatus, LoanRows, ScheduleItem, recalc_delinquency, should_move, compute_delinquency,
}
use loanapp.Common.{
  map, refl, ap, ◌∙◌, inr, ◌∷◌, ◌/◌, ◌-◌, [], inl, Bool-cases, sum_by, some, ltb, arith, false,
  true, if◌then◌else◌, ◌⊎◌, Text, Option, ◌≡◌, List, ℕ, ok,
}

-- The loan is being repaid.
abbrev pub Active : Status → Type 0
Active s = (s ≡ disbursed) ⊎ (s ≡ Status.overdue)

moves-Active :
    (s : Status) (d : DelinquencyStatus) → should_move s (next_status d) ≡ true → Active s
unfolding should_move status_eq status_index
moves-Active s d h = ground arith

stays-Active :
    (s : Status) (d : DelinquencyStatus)
    → should_move s (next_status d) ≡ false
    → Active s
    → s ≡ next_status d
unfolding should_move status_eq status_index
stays-Active s d h a = ground arith

status_by_amount :
    (now : ℕ) (items : List ScheduleItem)
    → let d = compute_delinquency now items in
      next_status d.status ≡ (if ltb 0 d.overdue_amount then Status.overdue else disbursed)
unfolding compute_delinquency
status_by_amount now items = ground arith

recalc_delinquency-system :
    (now : ℕ) (actor : Option Text) (b : LoanRows) {l : LoanState}
    → b.loan ≡ some l
    → (b' : LoanRows) × (d : Delinquency) × (recalc_delinquency now system actor b ≡ ok (b', d))
unfolding recalc_delinquency
recalc_delinquency-system now actor b {l} found =
    let d = compute_delinquency now b.items in
    let next = next_status d.status in
    elim (Bool-cases (should_move l.status next)) [
      | inl h ↦
          let may = system_moves l.status d.status h in
          (
            record {
              loan = some (record { status = next; delinquency = d; calculated_at = some now });
              items = map (refresh_item now) b.items;
              history = record { from = l.status; to = next; changed_by = actor } ∷ b.history;
            },
            d,
            rw (found, h, may, recalc_delinquency) refl,
          )
      | inr h ↦ (
        record {
          loan = some (record l { delinquency = d; calculated_at = some now });
          items = map (refresh_item now) b.items;
          history = b.history;
        },
        d,
        rw (found, h, recalc_delinquency) refl,
      )
    ]

-- For a loan that is there a recalculation by SYSTEM always succeeds. Its amount is what is left
-- of the items that are late, its days are those since the earliest of their dates, or 0 where none
-- is late; and a loan that was DISBURSED or OVERDUE is then OVERDUE if the amount is positive and
-- DISBURSED if not, where any other loan keeps its status.
pub recalc_delinquency_lem :
    (now : ℕ) (actor : Option Text) (b : LoanRows) {l : LoanState}
    → b.loan ≡ some l
    → (b' : LoanRows) × (d : Delinquency) × (l' : LoanState) × (recalc_delinquency now system actor
          b
        ≡ ok (b', d))
      × (b'.loan ≡ some l')
      × (d.overdue_amount ≡ sum_by remaining_amount (overdue_items now b.items))
      × (((d.days_past_due ≡ 0) × (overdue_items now b.items ≡ []))
          ⊎ ((e : ℕ) × (d.days_past_due ≡ (now - e) / ms_per_day)
              × EarliestDue e (overdue_items now b.items)))
      × (Active l.status
          → l'.status ≡ (if ltb 0 d.overdue_amount then Status.overdue else disbursed))
      × ((Active l.status → ⊥) → l'.status ≡ l.status)
recalc_delinquency_lem now actor b {l} found =
    let (b', d, ran) = recalc_delinquency-system now actor b found in
    let (after, same) =
      recalc_delinquency-Recalculated now system actor b {b' = b'} {d = d} found ran in
    let c = compute_delinquency now b.items in
    let ran' : recalc_delinquency now system actor b ≡ ok (b', c) =
      ran ∙ ap (λ (x : Delinquency). ok (b', x)) same in
    let (amount, days) = compute_delinquency_lem now b.items in
    let (l', held, active, other) = by_move b' after.1 in
    (b', c, l', ran', held, amount, days, active, other)
  where
    by_move :
        (b' : LoanRows)
        → StatusAfter now actor b l b'
        → (l' : LoanState) × (b'.loan ≡ some l')
          × (Active l.status
              → l'.status ≡ (
                  if ltb 0 (compute_delinquency now b.items).overdue_amount
                  then Status.overdue
                  else disbursed))
          × ((Active l.status → ⊥) → l'.status ≡ l.status)
    by_move b' (inl (moves, held, _)) = (
      _,
      held,
      λ a. status_by_amount now b.items,
      λ n. absurd (n (moves-Active l.status (compute_delinquency now b.items).status moves)),
    )
    by_move b' (inr (stays, held, _)) = (
      _,
      held,
      λ a.
          stays-Active l.status (compute_delinquency now b.items).status stays a
          ∙ status_by_amount now b.items,
      λ n. refl,
    )
