-- ===== src/Repayment/Rows.antt =====
-- Updating the rows of a schedule one at a time, and what stays outstanding on it.
use loanapp.Repayment.Transaction.{outstanding_total}
use loanapp.Repayment.Conservation.{spent, remaining}
use loanapp.Repayment.Allocation.{item_paid, share_of, allocate_items, update_of, Update, Item}
use loanapp.Common.{
  refl, ◌==◌, inr, text_eq_iff, inl, if◌then◌else◌, Bool-cases, [], ◌∙◌, none, ◌+◌, All, Option,
  some, false, arith, sum_by, ◌≡◌, ◌∷◌, text_eq, Text, ℕ, List,
}
use loanapp.Repayment.Posting.{apply_updates, update_row, updated, Row}

-- What is still to be paid on all rows.
abbrev pub outstanding : List Row → ℕ
outstanding rows = sum_by (λ r. remaining r.item) rows

pub outstanding-eq-total : (rows : List Row) → outstanding_total rows ≡ outstanding rows
unfolding remaining
outstanding-eq-total [] = omega arith
outstanding-eq-total (r ∷ rows) = omega (arith, outstanding-eq-total rows)

-- The item of the row that an update with this id reaches.
unfoldable pub row_item : List Row → Text → Option Item
row_item [] id = none
row_item (r ∷ rows) id = if text_eq r.item.id id then some r.item else row_item rows id

abbrev pub paid_item : Update → Item → Item
paid_item u i = record i {
  principal_paid = u.principal_paid;
  interest_paid = u.interest_paid;
  fees_paid = u.fees_paid;
  total_paid = u.total_paid;
}

outstanding-update_row :
    (u : Update) (rows : List Row) {i : Item}
    → row_item rows u.id ≡ some i
    → outstanding (update_row u rows) + remaining i ≡ outstanding rows + remaining (paid_item u i)
unfolding row_item update_row updated
outstanding-update_row u [] e = cc
outstanding-update_row u (r ∷ rows) {i} e = elim (Bool-cases (text_eq r.item.id u.id)) [
  | inl p ↦ let same : r.item ≡ i = ground arith in rw p (rw (← same) (omega arith))
  | inr q ↦ let rest = outstanding-update_row u rows {i = i} (ground arith) in rw q (omega arith)
]

row_item-update_row :
    (u : Update) (rows : List Row) (id : Text)
    → text_eq u.id id ≡ false
    → row_item (update_row u rows) id ≡ row_item rows id
unfolding row_item update_row updated
row_item-update_row u [] id h = refl
row_item-update_row u (r ∷ rows) id h = elim (Bool-cases (text_eq r.item.id u.id)) [
  | inl p ↦
      let same : r.item.id ≡ u.id = (text_eq_iff r.item.id u.id).0 p in
      let other : text_eq r.item.id id ≡ false = rw same h in rw (p, other)
  | inr q ↦ rw (q, row_item-update_row u rows id h)
]

remaining-share_of :
    (paid_at today left : ℕ) (i : Item)
    → remaining (paid_item (update_of paid_at today i (share_of left i)) i)
        + item_paid (share_of left i)
      ≡ remaining i
unfolding remaining update_of share_of
remaining-share_of paid_at today left i = omega arith

abbrev pub Apart : Item → Item → Type 0
Apart i j = text_eq i.id j.id ≡ false

-- No two items share an id.
abbrev pub Distinct : List Item → Type 0
Distinct [] = Unit
Distinct (i ∷ items) = All (Apart i) items × Distinct items

abbrev pub Found : List Row → Item → Type 0
Found rows i = row_item rows i.id ≡ some i

Found-update_row :
    (u : Update) (i : Item) (rows : List Row) (items : List Item)
    → u.id ≡ i.id
    → All (Apart i) items
    → All (Found rows) items
    → All (Found (update_row u rows)) items
Found-update_row u i rows [] same apart found = tt
Found-update_row u i rows (j ∷ items) same apart found = (
  row_item-update_row u rows j.id (rw same apart.0) ∙ found.0,
  Found-update_row u i rows items same apart.1 found.1,
)

module _ (paid_at today : ℕ) where
  -- Each update of an allocation reaches the row of its item, so what the allocation spends leaves
  -- the schedule.
  pub outstanding-allocate_items :
      (left : ℕ) (items : List Item) (rows : List Row)
      → Distinct items
      → All (Found rows) items
      → let a = allocate_items paid_at today left items in
        outstanding (apply_updates a.updates rows) + spent a ≡ outstanding rows
  unfolding allocate_items apply_updates
  outstanding-allocate_items left [] rows d found = omega arith
  outstanding-allocate_items left (i ∷ items) rows d found =
      let s = share_of left i in
      let u = update_of paid_at today i s in
      elim (Bool-cases (left == 0)) [
        | inl p ↦ rw p (omega arith)
        | inr p ↦ elim (Bool-cases (item_paid s == 0)) [
          | inl q ↦ rw (p, q) (outstanding-allocate_items s.left items rows d.1 found.1)
          | inr q ↦
              let same : u.id ≡ i.id = unfold update_of in refl in
              let reached : row_item rows u.id ≡ some i = rw same found.0 in
              let step = outstanding-update_row u rows {i = i} reached in
              let takes = remaining-share_of paid_at today left i in
              let rest =
                outstanding-allocate_items s.left items (update_row u rows) d.1
                  (Found-update_row u i rows items same d.0 found.1) in
              rw (p, q) (omega arith)
        ]
      ]
