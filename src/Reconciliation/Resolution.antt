-- ===== src/Reconciliation/Resolution.antt =====
-- Who can resolve which record, and how often.
use loanapp.Ledger.Outcome.{post_entry-guards}
use mathlib.Core.Path.{subst}
use loanapp.Disbursement.Records.{Principal}
use loanapp.Ledger.Reversal.{journal_input, assert_balanced, one_currency, create_journal}
use loanapp.Risk.Gate.{is_super}
use loanapp.Ledger.Entries.{is_nil, Ledger, adjustment, role_can_post}
use loanapp.Loan.Roles.{system, super_admin, Role}
use loanapp.Reconciliation.Records.{
  post_write_off, resolved_record, ReconciliationBook, resolve_record, adjustment_journal,
  is_terminal, is_adjustment, suspense, resolved, mismatch, ResolveInput, is_closed, is_write_off,
  ReconciliationRecord, update_record, RecordStatus, ResolutionType, check_record, find_record,
  can_transition, post_adjustment, target_status,
}
use loanapp.Common.{
  trimmed_or_null, none, Option, text_eq_refl, record_not_found, some_same, inr, Result, ◌&&◌,
  text_eq, inl, Bool-cases, if◌then◌else◌, err, Bool, Error, map, ap, refl, guard-not_ok,
  mixed_currencies, guard_ok, ok_injective, invalid_reconciliation, ◌∙◌, sym, ◌>>=◌,
  record_is_terminal, batch_is_closed, ◌>>◌, role_cannot_write_off, not, guard, >>=-eq-ok, [],
  arith, ◌⊎◌, ◌∷◌, false, List, true, ℕ, ◌≡◌, Text, some, ok,
}

adjustment_rights :
    (role : Role)
    → role_can_post (some role) adjustment ≡ true
    → (role ≡ super_admin) ⊎ (role ≡ system)
unfolding role_can_post
adjustment_rights role h = ground arith

is_super-eq : (role : Role) → is_super role ≡ true → role ≡ super_admin
is_super-eq role h = ground arith

pub can_transition_open :
    (from to : RecordStatus)
    → can_transition from to ≡ true
    → ((from ≡ mismatch) ⊎ (from ≡ suspense)) × (is_terminal to ≡ true)
unfolding can_transition
can_transition_open from to h = ground arith

pub target_status_ok :
    (role : Role) (type : ResolutionType) {to : RecordStatus}
    → target_status role type ≡ ok to
    → (is_write_off type ≡ true → (role ≡ super_admin) × (to ≡ RecordStatus.write_off))
      × (is_write_off type ≡ false → to ≡ resolved)
unfolding target_status
target_status_ok role type {to} e = (λ h. by_write_off (rewritten h), λ h. by_other h)
  where
    rewritten :
        is_write_off type ≡ true
        → (guard (is_super role) role_cannot_write_off >> ok RecordStatus.write_off) ≡ ok to
    rewritten h = sym (rw (h, target_status) refl) ∙ e

    by_write_off :
        (guard (is_super role) role_cannot_write_off >> ok RecordStatus.write_off) ≡ ok to
        → (role ≡ super_admin) × (to ≡ RecordStatus.write_off)
    by_write_off s =
        let (_, g, t) = >>=-eq-ok (guard (is_super role) role_cannot_write_off) _ s in
        (is_super-eq role (guard_ok _ _ g), sym (ok_injective t))

    by_other : is_write_off type ≡ false → to ≡ resolved
    by_other h =
        let s : ok resolved ≡ ok to = sym (rw (h, target_status) refl) ∙ e in sym (ok_injective s)

pub check_record_ok :
    (role : Role) (type : ResolutionType) (r : ReconciliationRecord) {to : RecordStatus}
    → check_record role type r ≡ ok to
    → (is_closed r.batch ≡ false)
      × (target_status role type ≡ ok to)
      × (can_transition r.status to ≡ true)
unfolding check_record
check_record_ok role type r {to} e =
    let (_, g1, e1) = >>=-eq-ok (guard (not (is_closed r.batch)) batch_is_closed) _ e in
    let (_, g2, e2) = >>=-eq-ok (guard (not (is_terminal r.status)) record_is_terminal) _ e1 in
    let (t, et, e3) = >>=-eq-ok (target_status role type) _ e2 in
    let (_, g3, e4) = >>=-eq-ok (guard (can_transition r.status t) invalid_reconciliation) _ e3 in
    let same : t ≡ to = ok_injective e4 in
    (
      guard-not_ok _ _ g1,
      et ∙ ap ok same,
      subst (λ x. can_transition r.status x ≡ true) same (guard_ok _ _ g3),
    )

pub post_adjustment_rights :
    (column : ℕ → ℕ) (fresh : Text) (now : ℕ) (p : Principal) (i : ResolveInput)
    (r : ReconciliationRecord) (g : Ledger) {g' : Ledger}
    → post_adjustment column fresh now p i r g ≡ ok g'
    → is_adjustment i.resolution ≡ true
    → is_nil i.lines ≡ false
    → (p.role ≡ super_admin) ⊎ (p.role ≡ system)
unfolding post_adjustment create_journal
post_adjustment_rights column fresh now p i r g {g'} e a n =
    let j = adjustment_journal now p i r in
    let s : (create_journal column fresh j g >>= λ posted. ok posted.0) ≡ ok g' =
      sym (rw (a, n, post_adjustment) refl) ∙ e in
    let (posted, ep, _) = >>=-eq-ok (create_journal column fresh j g) _ s in
    let (_, _, e1) = >>=-eq-ok (guard (one_currency j.entries) mixed_currencies) _ ep in
    let (_, _, e2) = >>=-eq-ok (assert_balanced (map (λ x. x.0) j.entries)) _ e1 in
    let rights = (post_entry-guards column fresh (journal_input j) g {r = posted} e2).2 in
    adjustment_rights p.role (unfold journal_input adjustment_journal in rights)

-- Whatever resolves a record, the record that is found afterwards is the resolved one.
pub find-update_record :
    (tenant id : Text) (f : ReconciliationRecord → ReconciliationRecord)
    (rs : List ReconciliationRecord) {r : ReconciliationRecord}
    → ((x : ReconciliationRecord) → ((f x).id ≡ x.id) × ((f x).tenant ≡ x.tenant))
    → find_record tenant id rs ≡ some r
    → find_record tenant id (update_record r.id f rs) ≡ some (f r)
unfolding find_record update_record
find-update_record tenant id f [] keeps e = cc
find-update_record tenant id f (x ∷ rs) {r} keeps e =
    elim (Bool-cases (text_eq x.tenant tenant && text_eq x.id id)) [
      | inl h ↦
          let s : some x ≡ some r = sym (rw (h, find_record) refl) ∙ e in
          subst (λ y. find_record tenant id (update_record y.id f (x ∷ rs)) ≡ some (f y))
            (some_same s) (rw (text_eq_refl x.id, (keeps x).0, (keeps x).1, h) refl)
      | inr h ↦
          let s : find_record tenant id rs ≡ some r = sym (rw (h, find_record) refl) ∙ e in
          let (ids, tenants) = head_kept (text_eq x.id r.id) in
          rw (ids, tenants, h) (find-update_record tenant id f rs {r = r} keeps s)
    ]
  where
    head_kept :
        (b : Bool) → ((if b then f x else x).id ≡ x.id) × ((if b then f x else x).tenant ≡ x.tenant)
    head_kept true = keeps x
    head_kept false = (refl, refl)

terminal_refused :
    (role : Role) (type : ResolutionType) (r : ReconciliationRecord)
    → is_terminal r.status ≡ true
    → (e : Error) × (check_record role type r ≡ err e)
unfolding check_record
terminal_refused role type r h = elim (Bool-cases (is_closed r.batch)) [
  | inl c ↦ (batch_is_closed, rw (c, check_record) refl)
  | inr c ↦ (record_is_terminal, rw (c, h, check_record) refl)
]

pub resolve_record-terminal :
    (column : ℕ → ℕ) (fresh : Text) (now : ℕ) (p : Principal) (id : Text) (i : ResolveInput)
    (b : ReconciliationBook) {r : ReconciliationRecord}
    → find_record p.tenant id b.records ≡ some r
    → is_terminal r.status ≡ true
    → (e : Error) × (resolve_record column fresh now p id i b ≡ err e)
unfolding resolve_record
resolve_record-terminal column fresh now p id i b {r} found h =
    let (e, refused) = terminal_refused p.role i.resolution r h in
    (e, rw (found, refused, resolve_record) refl)

-- The stages of a resolution that succeeds.
pub record Resolved (column : ℕ → ℕ) (fresh : Text) (now : ℕ) (p : Principal) (i : ResolveInput)
    (b b' : ReconciliationBook) (r : ReconciliationRecord) : Type 0 where
  pub to : RecordStatus
  pub adjusted : Ledger
  pub checked : check_record p.role i.resolution r ≡ ok to
  pub adjustment_posted : post_adjustment column fresh now p i r b.ledger ≡ ok adjusted
  pub records_of : b'.records ≡ update_record r.id (resolved_record now p i to) b.records

pub resolve_record-Resolved :
    (column : ℕ → ℕ) (fresh : Text) (now : ℕ) (p : Principal) (id : Text) (i : ResolveInput)
    (b : ReconciliationBook) {b' : ReconciliationBook}
    → resolve_record column fresh now p id i b ≡ ok b'
    → (r : ReconciliationRecord) × (find_record p.tenant id b.records ≡ some r)
      × Resolved column fresh now p i b b' r
unfolding resolve_record
resolve_record-Resolved column fresh now p id i b {b'} e =
    by_found (find_record p.tenant id b.records) refl e
  where
    by_found :
        (o : Option ReconciliationRecord)
        → find_record p.tenant id b.records ≡ o
        → elim o as (λ _. Result ReconciliationBook) [
          | none ↦ err record_not_found
          | some r ↦ (do
            to ← check_record p.role i.resolution r
            adjusted ← post_adjustment column fresh now p i r b.ledger
            written ← post_write_off column fresh now p i r adjusted
            ok (record {
              records = update_record r.id (resolved_record now p i to) b.records;
              ledger = written;
              history =
                  record {
                    record_id = r.id;
                    from = r.status;
                    to = to;
                    resolution_type = i.resolution;
                    note = trimmed_or_null i.note;
                    acted_by = p.admin_id;
                  }
                  ∷ b.history;
            }))
        ]
          ≡ ok b'
        → (r : ReconciliationRecord) × (find_record p.tenant id b.records ≡ some r)
          × Resolved column fresh now p i b b' r
    by_found none f s = cc
    by_found (some r) f s =
        let (to, c, s1) = >>=-eq-ok (check_record p.role i.resolution r) _ s in
        let (adjusted, a, s2) = >>=-eq-ok (post_adjustment column fresh now p i r b.ledger) _ s1 in
        let (written, w, s3) = >>=-eq-ok (post_write_off column fresh now p i r adjusted) _ s2 in
        (
          r,
          f,
          record {
            to = to;
            adjusted = adjusted;
            checked = c;
            adjustment_posted = a;
            records_of = ap (λ (x : ReconciliationBook). x.records) (sym (ok_injective s3));
          },
        )
