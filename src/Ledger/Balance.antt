-- ===== src/Ledger/Balance.antt =====
-- The debits and credits of the entries that `post_entry` stores.
use loanapp.Ledger.Outcome.{post_entry-guards, post_entry-ok}
use mathlib.Core.Path.{subst}
use Prim.Native.Nat.{zero}
use loanapp.Common.{
  ◌<◌, false, >>=-eq-ok, ◌>>=◌, inr, inl, Option-cases, suc, some, refl, map, [], arith, Text,
  negsuc, ◌∷◌, ok, positive_part?, ◌%◌, List, ◌≡◌, ◌*◌, pos, All, ℤ, ℕ,
}
use loanapp.Ledger.Entries.{
  is_nil, post_entry, currency_of, Posted, make_entry, EntryInput, Totals, StoredLine, store_line,
  units_per_cent, total, check_lines, to_minor, add_amount, Ledger, CheckedLine, Entry, Line,
}

abbrev pub IsWhole : ℤ → Type 0
IsWhole (pos n) = n % units_per_cent ≡ 0
IsWhole (negsuc n) = Unit

-- The sums of the minor amounts of an entry, debits and credits.
unfoldable pub minor_total : List StoredLine → Totals
unfolding add_amount
minor_total [] = (0, 0)
minor_total (l ∷ ls) = add_amount l.direction l.amount_minor (minor_total ls)

-- The same of the amounts that the columns keep.
unfoldable pub amount_total : List StoredLine → Totals
unfolding add_amount
amount_total [] = (0, 0)
amount_total (l ∷ ls) = add_amount l.direction l.amount (amount_total ls)

abbrev pub EntryBalanced : Entry → Type 0
EntryBalanced e =
    ((minor_total e.lines).0 ≡ (minor_total e.lines).1)
    × ((amount_total e.lines).0 ≡ (amount_total e.lines).1)

-- A stored line has a positive amount, in whole cents, which its minor amount repeats.
abbrev pub LineValid : StoredLine → Type 0
LineValid l = (0 < l.amount) × (l.amount ≡ l.amount_minor * units_per_cent)

abbrev pub EntryValid : Entry → Type 0
EntryValid e = (is_nil e.lines ≡ false) × All LineValid e.lines × EntryBalanced e

abbrev pub LedgerValid : Ledger → Type 0
LedgerValid g = All EntryValid g.entries

-- What the columns are relied on for: a whole number of cents is kept as it is.
abbrev pub KeepsCents : (ℕ → ℕ) → Type 0
KeepsCents column = (c : ℕ) → column (c * units_per_cent) ≡ c * units_per_cent

abbrev WholeLine : CheckedLine → Type 0
WholeLine l = (0 < l.amount) × (l.amount % units_per_cent ≡ 0)

positive_part?_whole :
    (z : ℤ) {n : ℕ} → IsWhole z → positive_part? z ≡ some n → n % units_per_cent ≡ 0
unfolding positive_part?
positive_part?_whole (pos zero) h e = cc
positive_part?_whole (pos (suc n)) {n = m} h e =
    let same : suc n ≡ m = cc in subst (λ k. k % units_per_cent ≡ 0) same h
positive_part?_whole (negsuc n) h e = cc

positive_part?-pos : (z : ℤ) {n : ℕ} → positive_part? z ≡ some n → 0 < n
unfolding positive_part?
positive_part?-pos (pos zero) e = cc
positive_part?-pos (pos (suc n)) {n = m} e = let same : suc n ≡ m = cc in omega arith
positive_part?-pos (negsuc n) e = cc

-- One step of the loop over the lines, when it succeeds.
pub check_lines-cons :
    (l : Line) (ls : List Line) {cs : List CheckedLine}
    → check_lines (l ∷ ls) ≡ ok cs
    → (n : ℕ) × (rest : List CheckedLine) × (positive_part? l.amount ≡ some n)
      × (check_lines ls ≡ ok rest)
      × (cs ≡ record { account = l.account; direction = l.direction; amount = n } ∷ rest)
unfolding check_lines
check_lines-cons l ls {cs} e = elim (Option-cases (positive_part? l.amount)) [
  | inl p ↦ cc
  | inr (n, p) ↦
      let e' : (check_lines ls >>= λ rest.
      ok (record { account = l.account; direction = l.direction; amount = n } ∷ rest))
          ≡ ok cs =
        ground arith in
      let (rest, er, ec) = >>=-eq-ok (check_lines ls) _ e' in (n, rest, p, er, cc)
]

check_lines-whole :
    (ls : List Line) {cs : List CheckedLine}
    → All (λ l. IsWhole l.amount) ls
    → check_lines ls ≡ ok cs
    → All WholeLine cs
check_lines-whole [] {cs} h e = let e' : cs ≡ [] = unfold check_lines in cc in rw e' tt
check_lines-whole (l ∷ ls) h e =
    let (n, rest, p, er, ec) = check_lines-cons l ls e in
    rw ec (
      (positive_part?-pos l.amount p, positive_part?_whole l.amount h.0 p),
      check_lines-whole ls h.1 er,
    )

check_lines-nil :
    (ls : List Line) {cs : List CheckedLine}
    → is_nil ls ≡ false
    → check_lines ls ≡ ok cs
    → is_nil cs ≡ false
check_lines-nil [] h e = cc
check_lines-nil (l ∷ ls) h e = let (n, rest, p, er, ec) = check_lines-cons l ls e in rw ec

whole_split : (n : ℕ) → n % units_per_cent ≡ 0 → n ≡ to_minor n * units_per_cent
unfolding to_minor
whole_split n h = omega arith

module _ (column : ℕ → ℕ) (keeps : KeepsCents column) where
  column_whole : (n : ℕ) → n % units_per_cent ≡ 0 → column n ≡ n
  column_whole n h = rw (whole_split n h) (keeps (to_minor n))

  stored_totals :
      (currency : Text) (cs : List CheckedLine)
      → All WholeLine cs
      → let stored = map (store_line column currency) cs in
        ((total cs).0 ≡ (minor_total stored).0 * units_per_cent)
        × ((total cs).1 ≡ (minor_total stored).1 * units_per_cent)
        × ((amount_total stored).0 ≡ (total cs).0)
        × ((amount_total stored).1 ≡ (total cs).1)
  unfolding total minor_total amount_total store_line
  stored_totals currency [] h = (refl, refl, refl, refl)
  stored_totals currency (c ∷ cs) h =
      ground (arith, stored_totals currency cs, whole_split c.amount, column_whole c.amount)

  stored_valid :
      (currency : Text) (cs : List CheckedLine)
      → All WholeLine cs
      → All LineValid (map (store_line column currency) cs)
  unfolding store_line
  stored_valid currency [] h = tt
  stored_valid currency (c ∷ cs) h =
      let kept = column_whole c.amount h.0.1 in
      let split = whole_split c.amount h.0.1 in
      ((omega arith, omega arith), stored_valid currency cs h.1)

  make_entry-EntryValid :
      (fresh : Text) (i : EntryInput) (cs : List CheckedLine)
      → is_nil cs ≡ false
      → All WholeLine cs
      → (total cs).0 ≡ (total cs).1
      → EntryValid (make_entry column fresh i cs)
  unfolding make_entry
  make_entry-EntryValid fresh i [] n h e = cc
  make_entry-EntryValid fresh i (c ∷ cs) n h e =
      let s = stored_totals (currency_of i.currency) (c ∷ cs) h in
      (refl, stored_valid (currency_of i.currency) (c ∷ cs) h, (omega arith, omega arith))

  -- Posting whole cents keeps the ledger valid: every entry has lines, each of a positive whole
  -- number of cents, and its debits equal its credits, in the stored amounts and in the minor
  -- amounts that the reports add up.
  pub post_entry-LedgerValid :
      (fresh : Text) (i : EntryInput) (g : Ledger) {r : Ledger × Posted}
      → All (λ l. IsWhole l.amount) i.lines
      → LedgerValid g
      → post_entry column fresh i g ≡ ok r
      → LedgerValid r.0
  post_entry-LedgerValid fresh i g {r} h b e =
      let (checked, p, even, how) = post_entry-ok column fresh i g {r = r} e in
      let lines = (post_entry-guards column fresh i g {r = r} e).1 in
      elim how [
        | inl (x, found, same, q) ↦ rw same b
        | inr (absent, new, q) ↦ rw new (
          make_entry-EntryValid fresh i checked (check_lines-nil i.lines lines p)
              (check_lines-whole i.lines h p) even,
          b,
        )
      ]
