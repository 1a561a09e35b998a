-- ===== src/Ledger/Outcome.antt =====
-- What a successful `post_entry` has done: it found the key's entry, or it stored a new one.
use loanapp.Common.{
  unbalanced, err, ◌≢◌, is_blank, arith, inr, Result-cases, inl, false, ◌∷◌, Option-cases, true,
  ◌⊎◌, none, ok, some, ◌≡◌, List, Text, ℕ,
}
use loanapp.Ledger.Entries.{
  role_can_post, is_nil, total, check_lines, make_entry, find_entry, Entry, CheckedLine, Posted,
  post_entry, record_entry, Ledger, EntryInput,
}

module _ (column : ℕ → ℕ) (fresh : Text) (i : EntryInput) where
  abbrev pub Reused : Ledger → Ledger × Posted → Type 0
  Reused g (g', p) =
      (e : Entry) × (find_entry i.tenant i.key g.entries ≡ some e)
      × (g'.entries ≡ g.entries)
      × (p ≡ record { id = e.id; reused = true })

  abbrev pub Stored : List CheckedLine → Ledger → Ledger × Posted → Type 0
  Stored checked g (g', p) =
      (find_entry i.tenant i.key g.entries ≡ none)
      × (g'.entries ≡ make_entry column fresh i checked ∷ g.entries)
      × (p ≡ record { id = fresh; reused = false })

  pub record_entry-cases :
      (checked : List CheckedLine) (g : Ledger) {r : Ledger × Posted}
      → record_entry column fresh i checked g ≡ ok r
      → Reused g r ⊎ Stored checked g r
  unfolding record_entry
  record_entry-cases checked g e = elim (Option-cases (find_entry i.tenant i.key g.entries)) [
    | inl p ↦ inr (p, ground arith, ground arith)
    | inr (x, p) ↦ inl (x, p, ground arith, ground arith)
  ]

  pub post_entry-ok :
      (g : Ledger) {r : Ledger × Posted}
      → post_entry column fresh i g ≡ ok r
      → (checked : List CheckedLine) × (check_lines i.lines ≡ ok checked)
        × ((total checked).0 ≡ (total checked).1)
        × (Reused g r ⊎ Stored checked g r)
  unfolding post_entry
  post_entry-ok g {r} e = elim (Result-cases (check_lines i.lines)) [
    | inl (x, p) ↦ ground arith
    | inr (checked, p) ↦
        (checked, p, ground arith, record_entry-cases checked g {r = r} (ground arith))
  ]

  -- The guards read the request alone: if they let it pass once, they let it pass on every ledger.
  pub post_entry-again :
      (g : Ledger) {r : Ledger × Posted} {checked : List CheckedLine}
      → check_lines i.lines ≡ ok checked
      → post_entry column fresh i g ≡ ok r
      → (other : Text) (h : Ledger)
      → post_entry column other i h ≡ record_entry column other i checked h
  unfolding post_entry
  post_entry-again g p e other h = ground arith

  pub post_entry-guards :
      (g : Ledger) {r : Ledger × Posted}
      → post_entry column fresh i g ≡ ok r
      → (is_blank i.key ≡ false)
        × (is_nil i.lines ≡ false)
        × (role_can_post i.actor_role i.type ≡ true)
  unfolding post_entry
  post_entry-guards g e = (ground arith, ground arith, ground arith)

  pub post_entry-enters :
      (g : Ledger) {checked : List CheckedLine}
      → is_blank i.key ≡ false
      → is_nil i.lines ≡ false
      → role_can_post i.actor_role i.type ≡ true
      → check_lines i.lines ≡ ok checked
      → (total checked).0 ≡ (total checked).1
      → post_entry column fresh i g ≡ record_entry column fresh i checked g
  unfolding post_entry
  post_entry-enters g k l w p even = ground arith

  -- A request in order but for its sums is refused as unbalanced.
  pub post_entry-unbalanced :
      (g : Ledger) {checked : List CheckedLine}
      → is_blank i.key ≡ false
      → is_nil i.lines ≡ false
      → role_can_post i.actor_role i.type ≡ true
      → check_lines i.lines ≡ ok checked
      → (total checked).0 ≢ (total checked).1
      → post_entry column fresh i g ≡ err unbalanced
  unfolding post_entry
  post_entry-unbalanced g k l w p uneven = ground arith
