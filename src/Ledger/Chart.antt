-- ===== src/Ledger/Chart.antt =====
-- The seeded chart of accounts and the lookups of `post_entry`.
use loanapp.Ledger.Entries.{has_account}
use loanapp.Common.{
  [], inr, inl, text_eq_refl, Bool-cases, ==_iff, arith, ==_refl, ◌∷◌, true, refl, ◌≡◌, some_of,
  get_or, Text, ℕ, List,
}
use loanapp.Ledger.Accounts.{
  capital_pool_losses, capital_pool_repaid, capital_pool_deployed, capital_pool_available, suspense,
  write_off_expense, penalty_income, fee_income, interest_income, wallet_clearing, bank_clearing,
  cash_on_hand, fees_receivable, interest_receivable, loan_clearing, loan_principal_receivable,
  loans_receivable, cash, cash_main, Account, Code, upsert_account, default_accounts, code_index,
  ensure_default_accounts, ensure_accounts, code_eq, AccountSeed,
}

code_eq_refl : (c : Code) → code_eq c c ≡ true
unfolding code_eq
code_eq_refl c = ==_refl (code_index c)

abbrev codes_in_order : List Code
codes_in_order =
    cash_main ∷ cash ∷ loans_receivable ∷ loan_principal_receivable ∷ loan_clearing
    ∷ interest_receivable ∷ fees_receivable ∷ cash_on_hand ∷ bank_clearing ∷ wallet_clearing
    ∷ interest_income ∷ fee_income ∷ penalty_income ∷ write_off_expense ∷ suspense
    ∷ capital_pool_available ∷ capital_pool_deployed ∷ capital_pool_repaid ∷ capital_pool_losses
    ∷ []

-- No two codes stand at one place of the enumeration.
code_of_index : ℕ → Code
code_of_index n = get_or codes_in_order n cash_main

code_index_inverse : (c : Code) → code_of_index (code_index c) ≡ c
unfolding code_of_index code_index
code_index_inverse cash_main = refl
code_index_inverse _ = refl

code_eq_sound : (c d : Code) → code_eq c d ≡ true → c ≡ d
unfolding code_eq
code_eq_sound c d h =
    let same : code_index c ≡ code_index d = (==_iff _ _).0 h in
    cc (code_index_inverse c, code_index_inverse d)

upsert-has_self :
    (tenant : Text) (s : AccountSeed) (l : List Account)
    → has_account tenant (upsert_account tenant s l) s.code ≡ true
unfolding upsert_account
upsert-has_self tenant s [] = ground (arith, text_eq_refl tenant, code_eq_refl s.code)
upsert-has_self tenant s (a ∷ l) =
    ground (arith, text_eq_refl tenant, code_eq_refl s.code, upsert-has_self tenant s l)

upsert-has_other :
    (tenant : Text) (s : AccountSeed) (l : List Account) (c : Code)
    → has_account tenant l c ≡ true
    → has_account tenant (upsert_account tenant s l) c ≡ true
unfolding upsert_account code_eq
upsert-has_other tenant s [] c h = cc
upsert-has_other tenant s (a ∷ l) c h =
    ground (arith, text_eq_refl tenant, upsert-has_other tenant s l c)

ensure-has_other :
    (tenant : Text) (ss : List AccountSeed) (l : List Account) (c : Code)
    → has_account tenant l c ≡ true
    → has_account tenant (ensure_accounts tenant ss l) c ≡ true
unfolding ensure_accounts
ensure-has_other tenant [] l c h = h
ensure-has_other tenant (s ∷ ss) l c h =
    ensure-has_other tenant ss (upsert_account tenant s l) c (upsert-has_other tenant s l c h)

ensure-has_seeded :
    (tenant : Text) (ss : List AccountSeed) (l : List Account) (c : Code)
    → some_of (λ s. code_eq s.code c) ss ≡ true
    → has_account tenant (ensure_accounts tenant ss l) c ≡ true
unfolding ensure_accounts
ensure-has_seeded tenant [] l c h = cc
ensure-has_seeded tenant (s ∷ ss) l c h = elim (Bool-cases (code_eq s.code c)) [
  | inl p ↦
      ensure-has_other tenant ss (upsert_account tenant s l) c
        (rw (← code_eq_sound s.code c p) (upsert-has_self tenant s l))
  | inr q ↦ ensure-has_seeded tenant ss (upsert_account tenant s l) c (ground arith)
]

seeded : (c : Code) → some_of (λ s. code_eq s.code c) default_accounts ≡ true
unfolding default_accounts code_eq code_index
seeded cash_main = refl
seeded _ = refl

-- After the seeding a tenant has an account of every code, whatever accounts there were.
pub ensure_default_accounts-has_account :
    (tenant : Text) (l : List Account) (c : Code)
    → has_account tenant (ensure_default_accounts tenant l) c ≡ true
unfolding ensure_default_accounts
ensure_default_accounts-has_account tenant l c =
    ensure-has_seeded tenant default_accounts l c (seeded c)
