-- ===== src/Reconciliation/Sequences.antt =====
-- What further resolutions leave of a record that has been resolved.
use loanapp.Reconciliation.Resolution.{resolve_record-Resolved, resolve_record-terminal}
use loanapp.Disbursement.Records.{Principal}
use loanapp.Reconciliation.Records.{
  resolved_record, is_terminal, resolve_record, ResolveInput, ReconciliationRecord, update_record,
  ReconciliationBook, find_record,
}
use loanapp.Common.{
  refl, [], inr, arith, text_eq_iff, some_same, sym, inl, ◌&&◌, true, Bool-cases, Bool, ◌∙◌, false,
  ◌∷◌, ap, text_eq, some, ◌≡◌, List, ℕ, Text, ok,
}

-- The successful resolutions of a tenant's records that follow each other, by anyone.
pub data Resolutions (column : ℕ → ℕ) (tenant : Text) (b : ReconciliationBook)
    : ReconciliationBook → Type 0 where
  no_more : Resolutions column tenant b b
  and_then :
      {c d : ReconciliationBook}
      → Resolutions column tenant b c
      → (fresh : Text) (now : ℕ) (p : Principal) (id : Text) (i : ResolveInput) → p.tenant ≡ tenant
      → resolve_record column fresh now p id i c ≡ ok d
      → Resolutions column tenant b d

find_record_id :
    (tenant id : Text) (rs : List ReconciliationRecord) {r : ReconciliationRecord}
    → find_record tenant id rs ≡ some r
    → r.id ≡ id
unfolding find_record
find_record_id tenant id [] e = cc
find_record_id tenant id (x ∷ rs) {r} e =
    elim (Bool-cases (text_eq x.tenant tenant && text_eq x.id id)) [
      | inl h ↦
          let s : some x ≡ some r = sym (rw (h, find_record) refl) ∙ e in
          ap (λ (y : ReconciliationRecord). y.id) (sym (some_same s))
          ∙ (text_eq_iff x.id id).0 (ground arith)
      | inr h ↦
          let s : find_record tenant id rs ≡ some r = sym (rw (h, find_record) refl) ∙ e in
          find_record_id tenant id rs {r = r} s
    ]

-- The update of a record with another identifier is not seen.
find-update_record-other :
    (tenant id other : Text) (f : ReconciliationRecord → ReconciliationRecord)
    (rs : List ReconciliationRecord)
    → ((x : ReconciliationRecord) → ((f x).id ≡ x.id) × ((f x).tenant ≡ x.tenant))
    → text_eq other id ≡ false
    → find_record tenant id (update_record other f rs) ≡ find_record tenant id rs
unfolding find_record update_record
find-update_record-other tenant id other f [] keeps h = refl
find-update_record-other tenant id other f (x ∷ rs) keeps h =
    let rest = find-update_record-other tenant id other f rs keeps h in
    elim (Bool-cases (text_eq x.id other)) [
      | inl e ↦
          let same : x.id ≡ other = (text_eq_iff x.id other).0 e in
          let apart : text_eq x.id id ≡ false = ap (λ y. text_eq y id) same ∙ h in
          let apart' : text_eq (f x).id id ≡ false = ap (λ y. text_eq y id) (keeps x).0 ∙ apart in
          passed e apart apart' rest
      | inr e ↦ rw (e, rest) refl
    ]
  where
    no_and : (b : Bool) → (b && false) ≡ false
    no_and true = refl
    no_and false = refl

    passed :
        text_eq x.id other ≡ true
        → text_eq x.id id ≡ false
        → text_eq (f x).id id ≡ false
        → find_record tenant id (update_record other f rs) ≡ find_record tenant id rs
        → find_record tenant id (update_record other f (x ∷ rs)) ≡ find_record tenant id (x ∷ rs)
    passed e apart apart' rest =
        rw
          (e, apart, apart', no_and (text_eq (f x).tenant tenant), no_and (text_eq x.tenant tenant))
          rest

-- The record that the tenant finds under the identifier is resolved or written off.
abbrev pub Ended : Text → Text → ReconciliationBook → Type 0
Ended tenant id b =
    (r : ReconciliationRecord) × (find_record tenant id b.records ≡ some r)
    × (is_terminal r.status ≡ true)

resolve_record-Ended :
    (column : ℕ → ℕ) (tenant id : Text) (fresh : Text) (now : ℕ) (p : Principal) (other : Text)
    (i : ResolveInput) (b : ReconciliationBook) {b' : ReconciliationBook}
    → p.tenant ≡ tenant
    → resolve_record column fresh now p other i b ≡ ok b'
    → Ended tenant id b
    → Ended tenant id b'
resolve_record-Ended column tenant id fresh now p other i b {b'} mine e (r, found, ended) =
    let (x, found', s) = resolve_record-Resolved column fresh now p other i b e in
    let named = find_record_id p.tenant other b.records found' in
    elim (Bool-cases (text_eq x.id id)) [
      | inl h ↦ absurd (again (sym named ∙ (text_eq_iff x.id id).0 h))
      | inr h ↦ (
        r,
        ap (find_record tenant id) s.records_of
            ∙ find-update_record-other tenant id x.id (resolved_record now p i s.to) b.records
                (λ y. unfold resolved_record in (refl, refl)) h
            ∙ found,
        ended,
      )
    ]
  where
    again : other ≡ id → ⊥
    again same =
        let here : find_record p.tenant other b.records ≡ some r =
          ap (λ t. find_record t other b.records) mine
          ∙ ap (λ x. find_record tenant x b.records) same
          ∙ found in
        let (_, refused) = resolve_record-terminal column fresh now p other i b here ended in
        let clash = sym e ∙ refused in cc

pub Resolutions-Ended :
    (column : ℕ → ℕ) (tenant id : Text) (b : ReconciliationBook) {b' : ReconciliationBook}
    → Resolutions column tenant b b'
    → Ended tenant id b
    → Ended tenant id b'
Resolutions-Ended column tenant id b no_more h = h
Resolutions-Ended column tenant id b (and_then {c} {d} before fresh now p other i mine e) h =
    resolve_record-Ended column tenant id fresh now p other i c {b' = d} mine e
      (Resolutions-Ended column tenant id b before h)
