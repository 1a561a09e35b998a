-- ===== src/Delinquency/Recalculation.antt =====
-- A recalculation of a loan's delinquency, and what it does to the loan's status.
use loanapp.Treasury.Pools.{or_else}
use loanapp.Loan.Roles.{Role, system, assert_transition}
use loanapp.Delinquency.Overdue.{refresh_item-kept, is_late}
use loanapp.Loan.Status.{Status, status_index, status_eq}
use loanapp.Delinquency.Engine.{
  Delinquency, LoanState, LoanRows, recalc_delinquency, same_time, same_bool, next_status,
  DelinquencyStatus, compute_item_overdue, Found, ScheduleItem, scan, should_move, refresh_item,
  compute_delinquency, add_item,
}
use loanapp.Common.{
  Result, ok_injective, >>=-eq-ok, ◌>>◌, ◌⊎◌, sym, Text, inl, inr, Bool-cases, some, Bool,
  if◌then◌else◌, Option, refl, false, true, [], ap, arith, ◌∙◌, none, ◌∷◌, map, ◌≡◌, List, ℕ, ok,
}

-- What the engine computes and writes depends on the dates and the amounts alone.
is_late-refresh_item :
    (now : ℕ) (i : ScheduleItem) → is_late now (refresh_item now i) ≡ is_late now i
is_late-refresh_item now i = let (d, t, p) = refresh_item-kept now i in ground arith

add_item-refresh_item :
    (now : ℕ) (i : ScheduleItem) (f : Found)
    → add_item now (refresh_item now i) f ≡ add_item now i f
unfolding add_item compute_item_overdue
add_item-refresh_item now i f = let (d, t, p) = refresh_item-kept now i in rw (d, t, p) refl

scan-refresh_item :
    (now : ℕ) (f : Found) (items : List ScheduleItem)
    → scan now f (map (refresh_item now) items) ≡ scan now f items
unfolding scan
scan-refresh_item now f [] = refl
scan-refresh_item now f (i ∷ items) =
    scan-refresh_item now (add_item now (refresh_item now i) f) items
    ∙ ap (λ x. scan now x items) (add_item-refresh_item now i f)

pub compute_delinquency-refresh_item :
    (now : ℕ) (items : List ScheduleItem)
    → compute_delinquency now (map (refresh_item now) items) ≡ compute_delinquency now items
unfolding compute_delinquency
compute_delinquency-refresh_item now items =
    rw (scan-refresh_item now (record { earliest = none; amount = 0 }) items) refl

same_bool-eq : (a b : Bool) → same_bool a b ≡ true → a ≡ b
same_bool-eq a b h = ground arith

same_time-eq : (a b : Option ℕ) → same_time a b ≡ true → a ≡ b
same_time-eq a b h = ground arith

-- The test saves a write: what it leaves is what the write would leave.
pub refresh_item_written :
    (now : ℕ) (i : ScheduleItem)
    → refresh_item now i ≡ record i {
      is_overdue = is_late now i;
      overdue_since = if is_late now i then some (or_else i.overdue_since i.due_date) else none;
    }
unfolding refresh_item compute_item_overdue
refresh_item_written now i =
    let c = compute_item_overdue now i in
    elim (Bool-cases (same_bool i.is_overdue c.is_overdue)) [
      | inr h ↦ rw (h, refresh_item) refl
      | inl h ↦ elim (Bool-cases (same_time i.overdue_since c.overdue_since)) [
        | inr k ↦ rw (h, k, refresh_item) refl
        | inl k ↦
            let a = same_bool-eq i.is_overdue c.is_overdue h in
            let b = same_time-eq i.overdue_since c.overdue_since k in
            rw (h, k, refresh_item) (λ t. record i { is_overdue = a t; overdue_since = b t })
      ]
    ]

refresh_item_twice :
    (now : ℕ) (i : ScheduleItem) → refresh_item now (refresh_item now i) ≡ refresh_item now i
refresh_item_twice now i =
    let written = refresh_item_written now i in
    let w = record i {
      is_overdue = is_late now i;
      overdue_since = if is_late now i then some (or_else i.overdue_since i.due_date) else none;
    } in
    let same = since_twice (is_late now i) i.overdue_since i.due_date in
    ap (refresh_item now) written
    ∙ refresh_item_written now w
    ∙ ap (λ (x : Option ℕ). record w { overdue_since = x }) same
    ∙ sym written
  where
    since_twice :
        (late : Bool) (o : Option ℕ) (d : ℕ)
        → (if late then some (or_else (if late then some (or_else o d) else none) d) else none)
          ≡ (if late then some (or_else o d) else none)
    since_twice true o d = refl
    since_twice false o d = refl

pub refresh_items_twice :
    (now : ℕ) (items : List ScheduleItem)
    → map (refresh_item now) (map (refresh_item now) items) ≡ map (refresh_item now) items
refresh_items_twice now [] = refl
refresh_items_twice now (i ∷ items) =
    let a = refresh_item_twice now i in let b = refresh_items_twice now items in cc

-- After a move or without one, there is no move left.
pub should_move_settled :
    (s : Status) (d : DelinquencyStatus)
    → (should_move s (next_status d) ≡ true → should_move (next_status d) (next_status d) ≡ false)
unfolding should_move status_eq status_index
should_move_settled s d h = ground arith

-- The moves that the engine makes are SYSTEM's.
pub system_moves :
    (s : Status) (d : DelinquencyStatus)
    → should_move s (next_status d) ≡ true
    → assert_transition system s (next_status d) ≡ ok tt
unfolding should_move status_eq status_index assert_transition
system_moves s d h = ground arith

-- What becomes of the status, with the history of it.
abbrev pub StatusAfter : ℕ → Option Text → LoanRows → LoanState → LoanRows → Type 0
StatusAfter now actor b l b' =
    let d = compute_delinquency now b.items in
    ((should_move l.status (next_status d.status) ≡ true)
      × (b'.loan
          ≡ some
              (record { status = next_status d.status; delinquency = d; calculated_at = some now }))
      × (b'.history
          ≡ record { from = l.status; to = next_status d.status; changed_by = actor } ∷ b.history))
    ⊎ ((should_move l.status (next_status d.status) ≡ false)
        × (b'.loan ≡ some (record l { delinquency = d; calculated_at = some now }))
        × (b'.history ≡ b.history))

-- What a recalculation leaves.
abbrev pub Recalculated : ℕ → Option Text → LoanRows → LoanState → LoanRows → Type 0
Recalculated now actor b l b' =
    (b'.items ≡ map (refresh_item now) b.items) × StatusAfter now actor b l b'

pub recalc_delinquency-Recalculated :
    (now : ℕ) (role : Role) (actor : Option Text) (b : LoanRows) {l : LoanState} {b' : LoanRows}
    {d : Delinquency}
    → b.loan ≡ some l
    → recalc_delinquency now role actor b ≡ ok (b', d)
    → Recalculated now actor b l b' × (d ≡ compute_delinquency now b.items)
unfolding recalc_delinquency
recalc_delinquency-Recalculated now role actor b {l} {b'} {d} found e =
    let c = compute_delinquency now b.items in
    let next = next_status c.status in
    elim (Bool-cases (should_move l.status next)) [
      | inl h ↦
          let s : (assert_transition role l.status next
                >> ok (
                  record {
                    loan =
                        some (record { status = next; delinquency = c; calculated_at = some now });
                    items = map (refresh_item now) b.items;
                    history = record { from = l.status; to = next; changed_by = actor } ∷ b.history;
                  },
                  c,
                ))
              ≡ ok (b', d) =
            sym (rw (found, h, recalc_delinquency) refl) ∙ e in
          let (_, _, t) = >>=-eq-ok (assert_transition role l.status next) _ s in
          let same = sym (ok_injective t) in
          (
            (
              ap (λ (x : LoanRows × Delinquency). x.0.items) same,
              inl (
                h,
                ap (λ (x : LoanRows × Delinquency). x.0.loan) same,
                ap (λ (x : LoanRows × Delinquency). x.0.history) same,
              ),
            ),
            ap (λ (x : LoanRows × Delinquency). x.1) same,
          )
      | inr h ↦
          let t : ◌≡◌ {A = Result (LoanRows × Delinquency)}
              (ok (
                record {
                  loan = some (record l { delinquency = c; calculated_at = some now });
                  items = map (refresh_item now) b.items;
                  history = b.history;
                },
                c,
              ))
              (ok (b', d)) =
            sym (rw (found, h, recalc_delinquency) refl) ∙ e in
          let same = sym (ok_injective t) in
          (
            (
              ap (λ (x : LoanRows × Delinquency). x.0.items) same,
              inr (
                h,
                ap (λ (x : LoanRows × Delinquency). x.0.loan) same,
                ap (λ (x : LoanRows × Delinquency). x.0.history) same,
              ),
            ),
            ap (λ (x : LoanRows × Delinquency). x.1) same,
          )
    ]
