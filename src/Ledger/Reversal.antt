-- ===== src/Ledger/Reversal.antt =====
-- Reversal, journals and account balances: `reverseEntry`, `assertBalanced`, `createJournal`,
-- `createEntryWithBalancedLines` and `listAccountsWithBalances` of
-- apps/api/src/common/ledger/tenant-ledger.service.ts.
use loanapp.Loan.Roles.{Role}
use loanapp.Common.{
  unbalanced, ok, ◌>>=◌, entry_not_found, err, two_entries_required, length, role_cannot_reverse,
  leb, ◌&&◌, mixed_currencies, ltb, true, map, false, text_eq, guard, none, ◌++◌, some, ◌>>◌, Bool,
  pos, [], Option, codes, if◌then◌else◌, Result, ◌+◌, ◌∷◌, ℕ, Text, List,
}
use loanapp.Ledger.Accounts.{code_eq, Code, Direction, debit, credit}
use loanapp.Ledger.Entries.{
  total, balanced, check_lines, find_entry, post_entry, currency_of, role_can_reverse, add_amount,
  Posted, adjustment, Line, Totals, StoredLine, Entry, EntryInput, Ledger,
}

unfoldable pub flip : Direction → Direction
flip debit = credit
flip credit = debit

-- `findFirst` on id and tenant.
unfoldable pub find_by_id : Text → Text → List Entry → Option Entry
find_by_id tenant id [] = none
find_by_id tenant id (e ∷ es) =
    if text_eq e.id id && text_eq e.tenant tenant then some e else find_by_id tenant id es

-- `reversal:${entry.id}`
abbrev pub reversal_key : Text → Text
reversal_key id = codes "reversal:" ++ id

-- `entry.lines[0]?.currency ?? 'NGN'`
abbrev pub first_currency : List StoredLine → Text
first_currency [] = codes "NGN"
first_currency (l ∷ ls) = l.currency

unfoldable pub reversal_line : StoredLine → Line
unfolding flip
reversal_line l = record {
  account = l.account;
  direction = flip l.direction;
  amount = pos l.amount;
}

-- `ReverseEntryInput`, with the time of the call.
pub record ReverseInput : Type 0 where
  pub tenant : Text
  pub entry_id : Text
  pub reason : Text
  pub created_by : Option Text
  pub actor_role : Option Role
  pub now : ℕ

unfoldable pub reversal_input : ReverseInput → Entry → EntryInput
reversal_input i e = record {
  tenant = i.tenant;
  occurred_at = i.now;
  type = adjustment;
  key = reversal_key e.id;
  reference_type = codes "LEDGER_REVERSAL";
  reference_id = e.id;
  currency = some (first_currency e.lines);
  created_by = i.created_by;
  actor_role = i.actor_role;
  memo = some i.reason;
  lines = map reversal_line e.lines;
}

unfoldable pub reverse_entry : (ℕ → ℕ) → Text → ReverseInput → Ledger → Result (Ledger × Posted)
reverse_entry column fresh i g = do
  guard (role_can_reverse i.actor_role) role_cannot_reverse
  elim (find_by_id i.tenant i.entry_id g.entries) [
    | none ↦ err entry_not_found
    | some e ↦ elim (find_entry i.tenant (reversal_key e.id) g.entries) [
      | some x ↦ ok (g, record { id = x.id; reused = true })
      | none ↦ post_entry column fresh (reversal_input i e) g
    ]
  ]

-- `assertBalanced`: the check of a journal before it is posted.
unfoldable pub assert_balanced : List Line → Result (Unit {0})
assert_balanced ls = do
  guard (ltb 1 (length ls)) two_entries_required
  checked ← check_lines ls
  guard (balanced (total checked)) unbalanced

-- `TenantJournalEntryInput`; an entry of it has a currency of its own.
pub record JournalInput : Type 0 where
  pub tenant : Text
  pub reference_type : Text
  pub reference_id : Text
  pub key : Text
  pub created_by : Option Text
  pub actor_role : Option Role
  pub memo : Option Text
  pub occurred_at : ℕ
  pub entries : List (Line × Option Text)

-- `currencies.length === 1`, of the set of the normalised currencies.
unfoldable pub one_currency : List (Line × Option Text) → Bool
one_currency [] = false
one_currency ((l, c) ∷ []) = true
one_currency ((l, c) ∷ (k, d) ∷ rest) =
    text_eq (currency_of c) (currency_of d) && one_currency ((k, d) ∷ rest)

-- The journal's currency is checked and then not passed on: the posting takes the default one.
unfoldable pub journal_input : JournalInput → EntryInput
journal_input i = record {
  tenant = i.tenant;
  occurred_at = i.occurred_at;
  type = adjustment;
  key = i.key;
  reference_type = i.reference_type;
  reference_id = i.reference_id;
  currency = none;
  created_by = i.created_by;
  actor_role = i.actor_role;
  memo = i.memo;
  lines = map (λ e. e.0) i.entries;
}

unfoldable pub create_journal : (ℕ → ℕ) → Text → JournalInput → Ledger → Result (Ledger × Posted)
create_journal column fresh i g = do
  guard (one_currency i.entries) mixed_currencies
  assert_balanced (map (λ e. e.0) i.entries)
  post_entry column fresh (journal_input i) g

-- The debits and credits of one account in minor units: the entry of `totals` for it.
abbrev pub line_on : Code → StoredLine → Totals → Totals
line_on code l t = if code_eq l.account code then add_amount l.direction l.amount_minor t else t

unfoldable pub lines_total : Code → List StoredLine → Totals
lines_total code [] = (0, 0)
lines_total code (l ∷ ls) = line_on code l (lines_total code ls)

abbrev pub plus : Totals → Totals → Totals
plus (a, b) (c, d) = (a + c, b + d)

-- Over the lines of the tenant's entries that occurred by `as_of`, if that is given.
abbrev pub counted : Text → Option ℕ → Entry → Bool
counted tenant none e = text_eq e.tenant tenant
counted tenant (some t) e = text_eq e.tenant tenant && leb e.occurred_at t

unfoldable pub account_total : Text → Option ℕ → Code → List Entry → Totals
account_total tenant as_of code [] = (0, 0)
account_total tenant as_of code (e ∷ es) =
    if counted tenant as_of e
    then plus (lines_total code e.lines) (account_total tenant as_of code es)
    else account_total tenant as_of code es
