-- ===== src/Ledger/Refinement.antt =====
-- The ledger of a tenant, seen from outside: the keys that it has seen and the debits and credits
-- of each account, in cents; and `postEntry` on them.
use loanapp.Ledger.Outcome.{post_entry-ok}
use loanapp.Ledger.Balance.{check_lines-cons}
use mathlib.Core.Path.{subst}
use Prim.Native.Nat.{zero}
use loanapp.Ledger.Reversal.{plus, lines_total, account_total}
use loanapp.Ledger.Entries.{
  post_entry, Posted, to_minor, currency_of, add_amount, CheckedLine, Totals, Line, make_entry,
  store_line, Ledger, Entry, find_entry, check_lines, EntryInput,
}
use loanapp.Ledger.Accounts.{code_eq, Code}
use loanapp.Common.{
  ◌∙◌, text_eq_refl, sym, refl, [], inr, inl, ap, ok_injective, Bool-cases, ◌&&◌, map, ◌||◌, suc,
  ◌∷◌, true, text_eq, negsuc, some, none, false, if◌then◌else◌, List, ◌≡◌, pos, Bool, Text, Option,
  ℤ, positive_part?, ℕ, ok,
}

pub record Balances : Type 0 where
  pub seen : Text → Bool
  pub totals : Code → Totals

abbrev pub size : ℤ → ℕ
size (pos n) = n
size (negsuc n) = 0

-- What the lines of a request debit and credit an account.
unfoldable pub request_total : Code → List Line → Totals
request_total code [] = (0, 0)
request_total code (l ∷ ls) =
    if code_eq l.account code
    then add_amount l.direction (to_minor (size l.amount)) (request_total code ls)
    else request_total code ls

-- A posting is counted once under its key.
unfoldable pub post_balances : EntryInput → Balances → Balances
post_balances i s = if s.seen i.key then s else record {
  seen = λ k. text_eq i.key k || s.seen k;
  totals = λ c. plus (request_total c i.lines) (s.totals c);
}

abbrev pub is_found : Option Entry → Bool
is_found none = false
is_found (some e) = true

unfoldable pub balances_of : Text → Ledger → Balances
balances_of tenant g = record {
  seen = λ k. is_found (find_entry tenant k g.entries);
  totals = λ c. account_total tenant none c g.entries;
}

size-positive : (a : ℤ) {n : ℕ} → positive_part? a ≡ some n → size a ≡ n
unfolding positive_part?
size-positive (pos zero) h = cc
size-positive (pos (suc n)) h = cc
size-positive (negsuc n) h = cc

pub check_lines-total :
    (column : ℕ → ℕ) (currency : Text) (code : Code) (ls : List Line) {cs : List CheckedLine}
    → check_lines ls ≡ ok cs
    → lines_total code (map (store_line column currency) cs) ≡ request_total code ls
unfolding check_lines lines_total request_total store_line
check_lines-total column currency code [] {cs} e =
    let same : [] ≡ cs = ok_injective e in
    subst (λ x. lines_total code (map (store_line column currency) x) ≡ (0, 0)) same refl
check_lines-total column currency code (l ∷ ls) {cs} e =
    let (n, rest, p, er, ec) = check_lines-cons l ls e in
    let below = check_lines-total column currency code ls er in
    let amount = size-positive l.amount p in
    subst (λ x. lines_total code (map (store_line column currency) x) ≡ request_total code (l ∷ ls))
      (sym ec) (rw (amount, below) refl)

module _ (column : ℕ → ℕ) (fresh : Text) (i : EntryInput) where
  stored_seen :
      (tenant : Text) (checked : List CheckedLine) (es : List Entry) (k : Text)
      → is_found (find_entry tenant k (make_entry column fresh i checked ∷ es))
        ≡ ((text_eq i.tenant tenant && text_eq i.key k) || is_found (find_entry tenant k es))
  unfolding find_entry make_entry
  stored_seen tenant checked es k = elim (Bool-cases (text_eq i.tenant tenant && text_eq i.key k)) [
    | inl h ↦ rw (h) refl
    | inr h ↦ rw (h) refl
  ]

  stored_totals :
      (tenant : Text) (code : Code) (checked : List CheckedLine) (es : List Entry)
      → check_lines i.lines ≡ ok checked
      → account_total tenant none code (make_entry column fresh i checked ∷ es) ≡ (
          if text_eq i.tenant tenant
          then plus (request_total code i.lines) (account_total tenant none code es)
          else account_total tenant none code es)
  unfolding account_total make_entry
  stored_totals tenant code checked es e =
      ap
        (λ x.
          if text_eq i.tenant tenant
          then plus x (account_total tenant none code es)
          else account_total tenant none code es)
        (check_lines-total column (currency_of i.currency) code i.lines e)

  stored_refines :
      (checked : List CheckedLine) (g g' : Ledger)
      → check_lines i.lines ≡ ok checked
      → find_entry i.tenant i.key g.entries ≡ none
      → g'.entries ≡ make_entry column fresh i checked ∷ g.entries
      → balances_of i.tenant g' ≡ post_balances i (balances_of i.tenant g)
  unfolding balances_of post_balances
  stored_refines checked g g' e new rows =
      let unseen : is_found (find_entry i.tenant i.key g.entries) ≡ false = ap is_found new in
      let here = text_eq_refl i.tenant in
      let seen : (k : Text)
          → is_found (find_entry i.tenant k g'.entries)
            ≡ (text_eq i.key k || is_found (find_entry i.tenant k g.entries)) =
        λ k.
          ap (λ x. is_found (find_entry i.tenant k x)) rows
          ∙ stored_seen i.tenant checked g.entries k
          ∙ rw (here) refl in
      let totals : (c : Code)
          → account_total i.tenant none c g'.entries
            ≡ plus (request_total c i.lines) (account_total i.tenant none c g.entries) =
        λ c.
          ap (account_total i.tenant none c) rows
          ∙ stored_totals i.tenant c checked g.entries e
          ∙ rw (here) refl in
      rw (unseen, post_balances) (λ t. record { seen = λ k. seen k t; totals = λ c. totals c t })

  stored_others :
      (checked : List CheckedLine) (g g' : Ledger) (tenant : Text)
      → check_lines i.lines ≡ ok checked
      → g'.entries ≡ make_entry column fresh i checked ∷ g.entries
      → text_eq i.tenant tenant ≡ false
      → balances_of tenant g' ≡ balances_of tenant g
  unfolding balances_of
  stored_others checked g g' tenant e rows apart =
      let seen : (k : Text)
          → is_found (find_entry tenant k g'.entries) ≡ is_found (find_entry tenant k g.entries) =
        λ k.
          ap (λ x. is_found (find_entry tenant k x)) rows
          ∙ stored_seen tenant checked g.entries k
          ∙ rw (apart) refl in
      let totals : (c : Code)
          → account_total tenant none c g'.entries ≡ account_total tenant none c g.entries =
        λ c.
          ap (account_total tenant none c) rows
          ∙ stored_totals tenant c checked g.entries e
          ∙ rw (apart) refl in
      λ t. record { seen = λ k. seen k t; totals = λ c. totals c t }

  reused_refines :
      (g g' : Ledger) {e : Entry}
      → find_entry i.tenant i.key g.entries ≡ some e
      → g'.entries ≡ g.entries
      → balances_of i.tenant g' ≡ post_balances i (balances_of i.tenant g)
  unfolding balances_of post_balances
  reused_refines g g' found rows =
      let known : is_found (find_entry i.tenant i.key g.entries) ≡ true = ap is_found found in
      rw (known, post_balances) (same_entries i.tenant rows)
    where
      same_entries :
          (tenant : Text) → g'.entries ≡ g.entries → balances_of tenant g' ≡ balances_of tenant g
      same_entries tenant rows =
          unfold balances_of in
          (λ t. record {
            seen = λ k. is_found (find_entry tenant k (rows t));
            totals = λ c. account_total tenant none c (rows t);
          })

  -- Posting refines the abstract posting: a posting that succeeds has, seen from outside, counted
  -- the request's lines once under its key, it reports a reuse exactly if the key had been seen,
  -- and no other tenant sees anything of it.
  pub post_entry-refines :
      (g g' : Ledger) {p : Posted}
      → post_entry column fresh i g ≡ ok (g', p)
      → (balances_of i.tenant g' ≡ post_balances i (balances_of i.tenant g))
        × (p.reused ≡ (balances_of i.tenant g).seen i.key)
        × ((tenant : Text)
            → text_eq i.tenant tenant ≡ false
            → balances_of tenant g' ≡ balances_of tenant g)
  unfolding balances_of
  post_entry-refines g g' {p} e =
      let (checked, lines, _, how) = post_entry-ok column fresh i g {r = (g', p)} e in
      elim how [
        | inl (x, found, rows, answer) ↦ (
          reused_refines g g' found rows,
          ap (λ (y : Posted). y.reused) answer ∙ sym (ap is_found found),
          λ tenant apart. λ t. record {
            seen = λ k. is_found (find_entry tenant k (rows t));
            totals = λ c. account_total tenant none c (rows t);
          },
        )
        | inr (new, rows, answer) ↦ (
          stored_refines checked g g' lines new rows,
          ap (λ (y : Posted). y.reused) answer ∙ sym (ap is_found new),
          λ tenant apart. stored_others checked g g' tenant lines rows apart,
        )
      ]
