-- ===== src/Ledger/Journals.antt =====
-- `create_journal`: what it checks, and the currency under which it stores.
use loanapp.Ledger.Outcome.{post_entry-ok}
use loanapp.Common.{
  Result-cases, inl, inr, Bool-cases, codes, refl, arith, [], ◌∷◌, length, true, map, ◌<◌, none, ok,
  ◌≡◌, All, Text, List, ℕ,
}
use loanapp.Ledger.Reversal.{
  journal_input, one_currency, JournalInput, create_journal, assert_balanced,
}
use loanapp.Ledger.Entries.{
  currency_of, make_entry, post_entry, Entry, StoredLine, find_entry, Posted, CheckedLine, Line,
  store_line, Ledger,
}

stored-currency :
    (column : ℕ → ℕ) (currency : Text) (cs : List CheckedLine)
    → All (λ (l : StoredLine). l.currency ≡ currency) (map (store_line column currency) cs)
unfolding store_line
stored-currency column currency [] = tt
stored-currency column currency (c ∷ cs) = (refl, stored-currency column currency cs)

create_journal-posts :
    (column : ℕ → ℕ) (fresh : Text) (i : JournalInput) (g : Ledger) {r : Ledger × Posted}
    → create_journal column fresh i g ≡ ok r
    → (one_currency i.entries ≡ true)
      × (assert_balanced (map (λ e. e.0) i.entries) ≡ ok tt)
      × (post_entry column fresh (journal_input i) g ≡ ok r)
unfolding create_journal
create_journal-posts column fresh i g {r} e = elim (Bool-cases (one_currency i.entries)) [
  | inr q ↦ ground arith
  | inl q ↦ elim (Result-cases (assert_balanced (map (λ e. e.0) i.entries))) [
    | inl (x, p) ↦ ground arith
    | inr (x, p) ↦ (q, p, ground arith)
  ]
]

assert_balanced-two : (ls : List Line) → assert_balanced ls ≡ ok tt → 1 < length ls
unfolding assert_balanced
assert_balanced-two ls e = ground arith

-- A journal that is stored had at least two entries, all of one currency, and every line of it is
-- stored as NGN, whatever that one currency was.
pub create_journal-stores_ngn :
    (column : ℕ → ℕ) (fresh : Text) (i : JournalInput) (g : Ledger) {r : Ledger × Posted}
    → find_entry i.tenant i.key g.entries ≡ none
    → create_journal column fresh i g ≡ ok r
    → (one_currency i.entries ≡ true)
      × (1 < length (map (λ e. e.0) i.entries))
      × ((x : Entry) × (r.0.entries ≡ x ∷ g.entries)
          × All (λ (l : StoredLine). l.currency ≡ codes "NGN") x.lines)
create_journal-stores_ngn column fresh i g {r} absent e =
    let (one, two, e') = create_journal-posts column fresh i g {r = r} e in
    let (checked, p, even, how) = post_entry-ok column fresh (journal_input i) g {r = r} e' in
    (
      one,
      assert_balanced-two _ two,
      elim how [
        | inl (x, found, same, q) ↦ unfold journal_input in cc
        | inr (new, same, q) ↦ (
          make_entry column fresh (journal_input i) checked,
          same,
          unfold make_entry journal_input currency_of in
              stored-currency column (codes "NGN") checked,
        )
      ],
    )
