-- ===== src/Ledger/Acceptance.antt =====
-- Which requests `post_entry` accepts.
use Prim.Native.Nat.{zero}
use loanapp.Ledger.Balance.{check_lines-cons}
use mathlib.Core.Path.{subst}
use loanapp.Ledger.Refinement.{size}
use loanapp.Ledger.Outcome.{post_entry-enters, post_entry-guards, post_entry-ok}
use loanapp.Ledger.Chart.{ensure_default_accounts-has_account}
use loanapp.Ledger.Accounts.{credit, debit, ensure_default_accounts, Code, Account}
use loanapp.Common.{
  negsuc, some_same, ok_injective, suc, pos, sum_by, some, ℤ, ◌<◌, All, sym, positive_part?, ◌≢◌,
  none, ◌∙◌, refl, map, [], inl, inr, text_eq_iff, ◌↔◌, true, arith, ◌∷◌, Option-cases, ok,
  is_empty, false, List, ◌≡◌, Text, is_blank, ℕ,
}
use loanapp.Ledger.Entries.{
  add_amount, Line, make_entry, total, check_lines, find_entry, post_entry, role_can_post,
  accounts_exist, CheckedLine, Posted, is_nil, record_entry, Ledger, assert_accounts_match,
  EntryInput,
}

-- What a line debits and credits, where its amount is not below zero.
abbrev pub debited : Line → ℕ
debited l = elim l.direction [ debit ↦ size l.amount | credit ↦ 0 ]

abbrev pub credited : Line → ℕ
credited l = elim l.direction [ debit ↦ 0 | credit ↦ size l.amount ]

-- An amount above zero: the size of one below zero is 0.
abbrev pub IsPositive : Line → Type 0
IsPositive l = 0 < size l.amount

-- The key is not blank, there is a line, the role may post the type, every amount is above zero,
-- and the debits equal the credits.
abbrev pub Acceptable : EntryInput → Type 0
Acceptable i =
    (is_blank i.key ≡ false)
    × (i.lines ≢ [])
    × (role_can_post i.actor_role i.type ≡ true)
    × All IsPositive i.lines
    × (sum_by debited i.lines ≡ sum_by credited i.lines)

size_positive : (z : ℤ) {n : ℕ} → positive_part? z ≡ some n → (size z ≡ n) × (0 < size z)
unfolding positive_part?
size_positive (pos zero) h = cc
size_positive (pos (suc n)) h = (some_same h, omega arith)
size_positive (negsuc n) h = cc

positive_size : (z : ℤ) → 0 < size z → positive_part? z ≡ some (size z)
unfolding positive_part?
positive_size (pos zero) h = absurd (omega arith)
positive_size (pos (suc n)) h = refl
positive_size (negsuc n) h = absurd (omega arith)

-- What passes the loop over the lines has positive amounts, and the loop's sums are the request's.
check_lines-IsPositive :
    (ls : List Line) {cs : List CheckedLine}
    → check_lines ls ≡ ok cs
    → All IsPositive ls × ((total cs).0 ≡ sum_by debited ls) × ((total cs).1 ≡ sum_by credited ls)
unfolding check_lines total add_amount
check_lines-IsPositive [] {cs} e =
    subst (λ x. Unit × ((total x).0 ≡ 0) × ((total x).1 ≡ 0)) (ok_injective e) (tt, refl, refl)
check_lines-IsPositive (l ∷ ls) {cs} e =
    let (n, rest, p, er, ec) = check_lines-cons l ls e in
    let (below, ds, ks) = check_lines-IsPositive ls er in
    let (amount, above) = size_positive l.amount p in
    subst
      (λ x.
        (IsPositive l × All IsPositive ls)
        × ((total x).0 ≡ sum_by debited (l ∷ ls))
        × ((total x).1 ≡ sum_by credited (l ∷ ls)))
      (sym ec) ((above, below), ground arith, ground arith)

check_lines-returns :
    (ls : List Line) → All IsPositive ls → (cs : List CheckedLine) × (check_lines ls ≡ ok cs)
unfolding check_lines
check_lines-returns [] h = ([], refl)
check_lines-returns (l ∷ ls) h =
    let (cs, e) = check_lines-returns ls h.1 in
    (
      record { account = l.account; direction = l.direction; amount = size l.amount } ∷ cs,
      rw (positive_size l.amount h.0, e, check_lines) refl,
    )

is_nil_iff : (ls : List Line) → (is_nil ls ≡ false) ↔ (ls ≢ [])
is_nil_iff [] = (λ h. cc, λ h. absurd (h refl))
is_nil_iff (l ∷ ls) = (λ _ h. cc, λ _. refl)

assert_accounts_match_passes :
    (tenant : Text) (wanted : List Code) (l : List Account)
    → is_empty tenant ≡ false
    → assert_accounts_match tenant wanted l ≡ ok tt
unfolding assert_accounts_match
assert_accounts_match_passes tenant wanted [] h = refl
assert_accounts_match_passes tenant wanted (a ∷ l) h =
    ground (arith, text_eq_iff a.tenant tenant, assert_accounts_match_passes tenant wanted l)

accounts_exist_seeded :
    (tenant : Text) (l : List Account) (ls : List CheckedLine)
    → accounts_exist tenant (ensure_default_accounts tenant l) ls ≡ true
accounts_exist_seeded tenant l [] = refl
accounts_exist_seeded tenant l (x ∷ ls) =
    rw (ensure_default_accounts-has_account tenant l x.account, accounts_exist_seeded tenant l ls)

module _ (column : ℕ → ℕ) (fresh : Text) (i : EntryInput) (g : Ledger) where
  -- The outcome for a new key.
  unfoldable pub stored : List CheckedLine → Ledger × Posted
  stored checked = (
    record {
      accounts = ensure_default_accounts i.tenant g.accounts;
      entries = make_entry column fresh i checked ∷ g.entries;
    },
    record { id = fresh; reused = false },
  )

  pub record_entry-stored :
      (checked : List CheckedLine)
      → is_empty i.tenant ≡ false
      → find_entry i.tenant i.key g.entries ≡ none
      → record_entry column fresh i checked g ≡ ok (stored checked)
  unfolding record_entry stored
  record_entry-stored checked h p = ground (
    arith,
    assert_accounts_match_passes i.tenant (map (λ l. l.account) checked)
        (ensure_default_accounts i.tenant g.accounts) h,
    accounts_exist_seeded i.tenant g.accounts checked,
  )

  record_entry_total :
      (checked : List CheckedLine)
      → is_empty i.tenant ≡ false
      → (r : Ledger × Posted) × (record_entry column fresh i checked g ≡ ok r)
  record_entry_total checked h = elim (Option-cases (find_entry i.tenant i.key g.entries)) [
    | inr (x, p) ↦ (
      (
        record g { accounts = ensure_default_accounts i.tenant g.accounts },
        record { id = x.id; reused = true },
      ),
      unfold record_entry in ground arith,
    )
    | inl p ↦ (stored checked, record_entry-stored checked h p)
  ]

  -- For a tenant that is not the empty text, a posting succeeds exactly if the key is not blank,
  -- there is a line, the role may post the type, every line's amount is above zero, and the debits
  -- of the request equal its credits; in particular a line never lacks its account.
  pub post_entry_ok_iff :
      is_empty i.tenant ≡ false
      → ((r : Ledger × Posted) × (post_entry column fresh i g ≡ ok r)) ↔ Acceptable i
  post_entry_ok_iff h = (accepted, succeeds)
    where
      accepted : ((r : Ledger × Posted) × (post_entry column fresh i g ≡ ok r)) → Acceptable i
      accepted (r, e) =
          let (checked, p, even, how) = post_entry-ok column fresh i g {r = r} e in
          let (k, l, w) = post_entry-guards column fresh i g {r = r} e in
          let (above, ds, cs) = check_lines-IsPositive i.lines p in
          (k, (is_nil_iff i.lines).0 l, w, above, sym ds ∙ even ∙ cs)

      succeeds : Acceptable i → (r : Ledger × Posted) × (post_entry column fresh i g ≡ ok r)
      succeeds (k, l, w, above, even) =
          let (checked, p) = check_lines-returns i.lines above in
          let (_, ds, cs) = check_lines-IsPositive i.lines p in
          let (r, e) = record_entry_total checked h in
          (
            r,
            post_entry-enters column fresh i g k ((is_nil_iff i.lines).1 l) w p (ds ∙ even ∙ sym cs)
                ∙ e,
          )
