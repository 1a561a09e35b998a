-- ===== src/Ledger/Cancellation.antt =====
-- What a reversal does to the balances: `reverse_entry`.
use loanapp.Ledger.Outcome.{post_entry-enters}
use mathlib.Core.Path.{subst}
use mathlib.Core.Option.{none}
use loanapp.Ledger.Acceptance.{record_entry-stored, stored}
use loanapp.Ledger.Accounts.{Code}
use loanapp.Loan.Roles.{Role}
use loanapp.Ledger.Balance.{EntryValid, LedgerValid, LineValid, amount_total, KeepsCents}
use loanapp.Common.{
  positive_part?-pos_of, text_eq_refl, inr, text_eq_iff, inl, ◌&&◌, text_eq, [], Bool-cases,
  is_space, ◌∙◌, is_blank-visible, refl, ap, ok, true, is_empty, ◌∷◌, arith, false, some, map,
  Option, Text, ◌≡◌, ◌*◌, All, List, ℕ,
}
use loanapp.Ledger.Reversal.{
  first_currency, plus, account_total, reverse_entry, reversal_key, reversal_line, flip,
  lines_total, find_by_id, ReverseInput, reversal_input,
}
use loanapp.Ledger.Entries.{
  make_entry, record_entry, currency_of, post_entry, Posted, adjustment, find_entry, add_amount,
  store_line, units_per_cent, Entry, CheckedLine, is_nil, role_can_post, check_lines, Totals, total,
  role_can_reverse, to_minor, StoredLine, Ledger,
}

unfoldable pub swap : Totals → Totals
swap (d, c) = (c, d)

-- What `check_lines` reads from a reversal line.
flipped : StoredLine → CheckedLine
flipped l = record { account = l.account; direction = flip l.direction; amount = l.amount }

check_lines-reversal :
    (ls : List StoredLine)
    → All LineValid ls
    → check_lines (map reversal_line ls) ≡ ok (map flipped ls)
unfolding check_lines flipped reversal_line
check_lines-reversal [] h = refl
check_lines-reversal (l ∷ ls) h =
    ground (arith, positive_part?-pos_of l.amount h.0.0, check_lines-reversal ls h.1)

total-flipped :
    (ls : List StoredLine)
    → ((total (map flipped ls)).0 ≡ (amount_total ls).1)
      × ((total (map flipped ls)).1 ≡ (amount_total ls).0)
unfolding total amount_total flipped flip
total-flipped [] = (refl, refl)
total-flipped (l ∷ ls) = ground (arith, total-flipped ls)

is_nil-reversal : (ls : List StoredLine) → is_nil ls ≡ false → is_nil (map reversal_line ls) ≡ false
is_nil-reversal [] h = cc
is_nil-reversal (l ∷ ls) h = refl

reversal-role :
    (role : Option Role) → role_can_reverse role ≡ true → role_can_post role adjustment ≡ true
unfolding role_can_reverse role_can_post
reversal-role none h = refl
reversal-role (some r) h = ground arith

reversal-enters :
    (column : ℕ → ℕ) (fresh : Text) (i : ReverseInput) (e : Entry) (g : Ledger)
    → EntryValid e
    → role_can_reverse i.actor_role ≡ true
    → post_entry column fresh (reversal_input i e) g
      ≡ record_entry column fresh (reversal_input i e) (map flipped e.lines) g
unfolding reversal_input
reversal-enters column fresh i e g v role =
    let t = total-flipped e.lines in
    post_entry-enters column fresh (reversal_input i e) g
      (is_blank-visible b'r' _ (unfold is_space in refl)) (is_nil-reversal e.lines v.0)
      (reversal-role i.actor_role role) (check_lines-reversal e.lines v.1) (omega arith)

pub to_minor-whole : (c : ℕ) → to_minor (c * units_per_cent) ≡ c
unfolding to_minor
to_minor-whole c = omega arith

module _ (column : ℕ → ℕ) (keeps : KeepsCents column) where
  lines_total-reversal :
      (currency : Text) (code : Code) (ls : List StoredLine)
      → All LineValid ls
      → lines_total code (map (store_line column currency) (map flipped ls))
        ≡ swap (lines_total code ls)
  unfolding lines_total store_line flipped flip swap add_amount
  lines_total-reversal currency code [] h = refl
  lines_total-reversal currency code (l ∷ ls) h =
      let same : to_minor l.amount ≡ l.amount_minor =
        ap to_minor h.0.1 ∙ to_minor-whole l.amount_minor in
      ground (arith, same, lines_total-reversal currency code ls h.1)

  find_by_id_sound :
      (tenant id : Text) (es : List Entry) {e : Entry}
      → find_by_id tenant id es ≡ some e
      → All EntryValid es
      → EntryValid e × (e.tenant ≡ tenant)
  unfolding find_by_id
  find_by_id_sound tenant id [] f h = cc
  find_by_id_sound tenant id (x ∷ es) {e} f h =
      elim (Bool-cases (text_eq x.id id && text_eq x.tenant tenant)) [
        | inl p ↦
            let same : x ≡ e = ground arith in
            subst (λ (y : Entry). EntryValid y × (y.tenant ≡ tenant)) same
              (h.0, (text_eq_iff x.tenant tenant).0 (ground arith))
        | inr q ↦ find_by_id_sound tenant id es {e = e} (ground arith) h.1
      ]

  -- Where the stored columns keep whole cents and the tenant is not the empty text: reversing an
  -- entry of a valid ledger that was not reversed before, by a role that may reverse, succeeds, adds
  -- one entry of the tenant, and on every account adds the entry's credits to the debits and its
  -- debits to the credits.
  pub reverse_entry-cancels :
      (fresh : Text) (i : ReverseInput) (g : Ledger) {e : Entry}
      → LedgerValid g
      → is_empty i.tenant ≡ false
      → role_can_reverse i.actor_role ≡ true
      → find_by_id i.tenant i.entry_id g.entries ≡ some e
      → find_entry i.tenant (reversal_key e.id) g.entries ≡ none
      → (r : Ledger × Posted) × (reverse_entry column fresh i g ≡ ok r)
        × ((x : Entry) × (r.0.entries ≡ x ∷ g.entries) × (x.tenant ≡ i.tenant))
        × ((code : Code)
            → account_total i.tenant none code r.0.entries
              ≡ plus (swap (lines_total code e.lines)) (account_total i.tenant none code g.entries))
  reverse_entry-cancels fresh i g {e} v t role found absent =
      let (valid, mine) = find_by_id_sound i.tenant i.entry_id g.entries found v in
      let currency = currency_of (some (first_currency e.lines)) in
      (
        stored column fresh (reversal_input i e) g (map flipped e.lines),
        reverse_posts
            ∙ reversal-enters column fresh i e g valid role
            ∙ record_entry-stored column fresh (reversal_input i e) g (map flipped e.lines)
                (unfold reversal_input in t) (unfold reversal_input in absent),
        (
          make_entry column fresh (reversal_input i e) (map flipped e.lines),
          unfold stored in refl,
          unfold make_entry reversal_input in refl,
        ),
        λ code.
            unfold stored make_entry account_total reversal_input in
            rw (text_eq_refl i.tenant) (
              ap (λ x. plus x (account_total i.tenant none code g.entries))
                (lines_total-reversal currency code e.lines valid.1)),
      )
    where
      reverse_posts :
          reverse_entry column fresh i g ≡ post_entry column fresh (reversal_input i e) g
      reverse_posts = unfold reverse_entry in ground arith
