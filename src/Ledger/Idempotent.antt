-- ===== src/Ledger/Idempotent.antt =====
-- The idempotency keys of `post_entry`.
use mathlib.Core.Path.{subst}
use loanapp.Ledger.Accounts.{ensure_default_accounts}
use loanapp.Ledger.Outcome.{post_entry-again, post_entry-ok}
use loanapp.Common.{
  Bool-cases, text_eq_iff, false, ◌&&◌, All, text_eq, arith, ◌∙◌, text_eq_refl, sym, ap, inr, refl,
  inl, some, [], true, ok, none, ◌≡◌, ◌∷◌, Text, ℕ, List,
}
use loanapp.Ledger.Entries.{
  record_entry, make_entry, post_entry, Posted, find_entry, EntryInput, Entry, Ledger,
}

abbrev pub OtherKey : Text → Text → Entry → Type 0
OtherKey tenant key x = x.tenant ≡ tenant → x.key ≡ key → ⊥

-- No two entries have the same tenant and the same key.
abbrev pub UniqueKeys : List Entry → Type 0
UniqueKeys [] = Unit
UniqueKeys (e ∷ es) = All (OtherKey e.tenant e.key) es × UniqueKeys es

-- A lookup that finds nothing has passed entries of other keys alone.
absent-OtherKey :
    (tenant key : Text) (es : List Entry)
    → find_entry tenant key es ≡ none
    → All (OtherKey tenant key) es
unfolding find_entry
absent-OtherKey tenant key [] h = tt
absent-OtherKey tenant key (x ∷ es) h =
    elim (Bool-cases (text_eq x.tenant tenant && text_eq x.key key)) [
      | inl p ↦ let clash : some x ≡ none = ground arith in cc
      | inr p ↦ (other p, absent-OtherKey tenant key es (ground arith))
    ]
  where
    other : (text_eq x.tenant tenant && text_eq x.key key) ≡ false → OtherKey tenant key x
    other p t k =
        let a = (text_eq_iff x.tenant tenant).1 t in
        let b = (text_eq_iff x.key key).1 k in ground arith

-- An entry that is found is found in the same way after a posting.
pub find_entry-kept :
    (column : ℕ → ℕ) (fresh : Text) (i : EntryInput) (g : Ledger) {r : Ledger × Posted}
    (tenant key : Text) {x : Entry}
    → post_entry column fresh i g ≡ ok r
    → find_entry tenant key g.entries ≡ some x
    → find_entry tenant key r.0.entries ≡ some x
find_entry-kept column fresh i g {r} tenant key {x} e found =
    let (checked, p, even, how) = post_entry-ok column fresh i g {r = r} e in
    elim how [
      | inl (y, _, same, q) ↦ rw same found
      | inr (absent, new, q) ↦ rw new (
          unfold find_entry make_entry in
          elim (Bool-cases (text_eq i.tenant tenant && text_eq i.key key)) [
            | inl h ↦ absurd (clash absent (same_key h))
            | inr h ↦ rw h found
          ])
    ]
  where
    same_key :
        (text_eq i.tenant tenant && text_eq i.key key) ≡ true → (i.tenant ≡ tenant) × (i.key ≡ key)
    same_key h =
        ((text_eq_iff i.tenant tenant).0 (ground arith), (text_eq_iff i.key key).0 (ground arith))

    clash : find_entry i.tenant i.key g.entries ≡ none → (i.tenant ≡ tenant) × (i.key ≡ key) → ⊥
    clash absent (t, k) =
        let missing : find_entry tenant key g.entries ≡ none = rw (← t, ← k) absent in cc

module _ (column : ℕ → ℕ) where
  -- Where no two entries of a ledger have the same tenant and the same idempotency key, none have
  -- after a posting that succeeds.
  pub post_entry-UniqueKeys :
      (fresh : Text) (i : EntryInput) (g : Ledger) {r : Ledger × Posted}
      → UniqueKeys g.entries
      → post_entry column fresh i g ≡ ok r
      → UniqueKeys r.0.entries
  post_entry-UniqueKeys fresh i g {r} u e =
      let (checked, p, even, how) = post_entry-ok column fresh i g {r = r} e in
      elim how [
        | inl (x, found, same, q) ↦ rw same u
        | inr (absent, new, q) ↦
            rw new (unfold make_entry in (absent-OtherKey i.tenant i.key g.entries absent, u))
      ]

  -- After a post the key is found, with the identifier that the caller was given.
  pub find_entry-post_entry :
      (fresh : Text) (i : EntryInput) (g : Ledger) {r : Ledger × Posted}
      → post_entry column fresh i g ≡ ok r
      → (x : Entry) × (find_entry i.tenant i.key r.0.entries ≡ some x) × (x.id ≡ r.1.id)
  find_entry-post_entry fresh i g {r} e =
      let (checked, p, even, how) = post_entry-ok column fresh i g {r = r} e in
      elim how [
        | inl (x, found, same, q) ↦ (x, rw same found, ap (λ (t : Posted). t.id) (sym q))
        | inr (absent, new, q) ↦ (
          make_entry column fresh i checked,
          subst (λ es. find_entry i.tenant i.key es ≡ some (make_entry column fresh i checked))
              (sym new)
              (unfold find_entry make_entry in rw (text_eq_refl i.tenant, text_eq_refl i.key) refl),
          unfold make_entry in ap (λ (t : Posted). t.id) (sym q),
        )
      ]

  -- A request that was posted can be sent again, with another fresh identifier: it succeeds, says
  -- that the entry is reused and which one it is, and leaves the entries as they are.
  pub post_entry_twice :
      (fresh other : Text) (i : EntryInput) (g : Ledger) {r : Ledger × Posted}
      → post_entry column fresh i g ≡ ok r
      → (h : Ledger) × (post_entry column other i r.0
          ≡ ok (h, record { id = r.1.id; reused = true }))
        × (h.entries ≡ r.0.entries)
  post_entry_twice fresh other i g {r} e =
      let (x, found, same) = find_entry-post_entry fresh i g {r = r} e in
      let (checked, p, even, how) = post_entry-ok column fresh i g {r = r} e in
      (
        record r.0 { accounts = ensure_default_accounts i.tenant r.0.accounts },
        post_entry-again column fresh i g {r = r} p e other r.0
            ∙ unfold record_entry in ground (arith, found, same),
        refl,
      )
