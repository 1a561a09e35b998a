-- ===== src/Delinquency/Overdue.antt =====
-- The loop over the items of a schedule.
use loanapp.Delinquency.Engine.{
  days_since, ms_per_day, refresh_item, compute_delinquency, remaining_amount, earlier, Found,
  compute_item_overdue, ScheduleItem, scan, add_item,
}
use loanapp.Common.{
  ◌/◌, ◌-◌, if◌then◌else◌, none, refl, Option, [], ◌∙◌, ap, inr, Bool-cases, ◌∷◌, inl, arith, ◌&&◌,
  ◌⊎◌, sum_by, false, some, ltb, ◌==◌, All, ◌+◌, true, keep, Bool, ◌≤◌, some_of, ◌≡◌, List, ℕ,
}

abbrev pub is_late : ℕ → ScheduleItem → Bool
is_late now i = ltb i.due_date now && ltb 0 (remaining_amount i)

abbrev pub overdue_items : ℕ → List ScheduleItem → List ScheduleItem
overdue_items now items = keep (is_late now) items

add_item-late :
    (now : ℕ) (i : ScheduleItem) (f : Found)
    → is_late now i ≡ true
    → add_item now i f ≡ record {
      earliest = some (earlier f.earliest i.due_date);
      amount = f.amount + remaining_amount i;
    }
unfolding add_item compute_item_overdue
add_item-late now i f h = rw (h) refl

add_item-not_late :
    (now : ℕ) (i : ScheduleItem) (f : Found) → is_late now i ≡ false → add_item now i f ≡ f
unfolding add_item compute_item_overdue
add_item-not_late now i f h = rw (h) refl

pub scan-amount :
    (now : ℕ) (f : Found) (items : List ScheduleItem)
    → (scan now f items).amount ≡ f.amount + sum_by remaining_amount (overdue_items now items)
unfolding scan
scan-amount now f [] = omega arith
scan-amount now f (i ∷ items) =
    let rest = scan-amount now (add_item now i f) items in
    elim (Bool-cases (is_late now i)) [
      | inl h ↦
          let e = ap (λ (x : Found). x.amount) (add_item-late now i f h) in
          rw (h, keep) (omega arith)
      | inr h ↦
          let e = ap (λ (x : Found). x.amount) (add_item-not_late now i f h) in
          rw (h, keep) (omega arith)
    ]

-- The date of some item of the list, and no later than any of theirs.
abbrev pub EarliestDue : ℕ → List ScheduleItem → Type 0
EarliestDue e items =
    (some_of (λ i. i.due_date == e) items ≡ true) × All (λ i. e ≤ i.due_date) items

abbrev Reached : ℕ → ℕ → ℕ → List ScheduleItem → Type 0
Reached now e0 e items =
    (e ≤ e0)
    × All (λ i. e ≤ i.due_date) (overdue_items now items)
    × ((e ≡ e0) ⊎ (some_of (λ i. i.due_date == e) (overdue_items now items) ≡ true))

still_reached :
    (d e0 e : ℕ) (rest : Bool)
    → (e ≡ earlier (some e0) d) ⊎ (rest ≡ true)
    → (e ≡ e0) ⊎ ((if d == e then true else rest) ≡ true)
still_reached d e0 e rest h = ground arith

scan-from :
    (now : ℕ) (f : Found) (items : List ScheduleItem) (e0 : ℕ)
    → f.earliest ≡ some e0
    → (e : ℕ) × ((scan now f items).earliest ≡ some e) × Reached now e0 e items
unfolding scan
scan-from now f [] e0 h = (e0, h, (omega arith, tt, inl refl))
scan-from now f (i ∷ items) e0 h = elim (Bool-cases (is_late now i)) [
  | inr l ↦
      let same = ap (λ (x : Found). x.earliest) (add_item-not_late now i f l) in
      let (e, s, (below, all, some_one)) = scan-from now (add_item now i f) items e0 (same ∙ h) in
      (e, s, (below, rw (l, keep) all, rw (l, keep) some_one))
  | inl l ↦
      let next = earlier (some e0) i.due_date in
      let same : (add_item now i f).earliest ≡ some next =
        ap (λ (x : Found). x.earliest) (add_item-late now i f l)
        ∙ ap (λ (x : Option ℕ). some (earlier x i.due_date)) h in
      let (e, s, (below, all, some_one)) = scan-from now (add_item now i f) items next same in
      (
        e,
        s,
        (
          ground arith,
          rw (l, keep) (ground arith, all),
          rw (l, keep) (still_reached i.due_date e0 e _ some_one),
        ),
      )
]

scan-none :
    (now : ℕ) (f : Found) (items : List ScheduleItem)
    → f.earliest ≡ none
    → ((scan now f items).earliest ≡ none) × (overdue_items now items ≡ [])
      ⊎ ((e : ℕ) × ((scan now f items).earliest ≡ some e) × EarliestDue e (overdue_items now items))
unfolding scan
scan-none now f [] h = inl (h, refl)
scan-none now f (i ∷ items) h = elim (Bool-cases (is_late now i)) [
  | inr l ↦
      let same = ap (λ (x : Found). x.earliest) (add_item-not_late now i f l) in
      rw (l, keep) (scan-none now (add_item now i f) items (same ∙ h))
  | inl l ↦
      let same : (add_item now i f).earliest ≡ some i.due_date =
        ap (λ (x : Found). x.earliest) (add_item-late now i f l)
        ∙ ap (λ (x : Option ℕ). some (earlier x i.due_date)) h in
      let (e, s, (below, all, some_one)) = scan-from now (add_item now i f) items i.due_date same in
      inr (e, s, rw (l, keep) (first_reached i.due_date e _ some_one, (below, all)))
]
  where
    first_reached :
        (d e : ℕ) (rest : Bool) → (e ≡ d) ⊎ (rest ≡ true) → (if d == e then true else rest) ≡ true
    first_reached d e rest h = ground arith

-- The engine's figures: the sum of what is left of the items that are late, and the whole days
-- since the earliest of their dates, or 0 where none is late.
pub compute_delinquency_lem :
    (now : ℕ) (items : List ScheduleItem)
    → let d = compute_delinquency now items in
      (d.overdue_amount ≡ sum_by remaining_amount (overdue_items now items))
      × (((d.days_past_due ≡ 0) × (overdue_items now items ≡ []))
          ⊎ ((e : ℕ) × (d.days_past_due ≡ (now - e) / ms_per_day)
              × EarliestDue e (overdue_items now items)))
unfolding compute_delinquency
compute_delinquency_lem now items =
    let start : Found = record { earliest = none; amount = 0 } in
    (scan-amount now start items ∙ omega arith, by_none (scan-none now start items refl))
  where
    by_none :
        ((scan now (record { earliest = none; amount = 0 }) items).earliest ≡ none)
            × (overdue_items now items ≡ [])
          ⊎ ((e : ℕ) × ((scan now (record { earliest = none; amount = 0 }) items).earliest ≡ some e)
              × EarliestDue e (overdue_items now items))
        → ((days_since now (scan now (record { earliest = none; amount = 0 }) items).earliest ≡ 0)
            × (overdue_items now items ≡ []))
          ⊎ ((e : ℕ) × (days_since now
                  (scan now (record { earliest = none; amount = 0 }) items).earliest
                ≡ (now - e) / ms_per_day)
              × EarliestDue e (overdue_items now items))
    by_none (inl (n, es)) = inl (ap (days_since now) n, es)
    by_none (inr (e, s, least)) = inr (e, ap (days_since now) s, least)

-- An item that is refreshed keeps what the engine reads.
pub refresh_item-kept :
    (now : ℕ) (i : ScheduleItem)
    → ((refresh_item now i).due_date ≡ i.due_date)
      × ((refresh_item now i).total_due ≡ i.total_due)
      × ((refresh_item now i).total_paid ≡ i.total_paid)
unfolding refresh_item compute_item_overdue
refresh_item-kept now i = ground arith
