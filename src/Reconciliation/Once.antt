-- ===== src/Reconciliation/Once.antt =====
-- How often and by whom a record is resolved.
use loanapp.Reconciliation.Sequences.{Resolutions-Ended, Resolutions}
use loanapp.Reconciliation.Resolution.{
  resolve_record-terminal, post_adjustment_rights, target_status_ok, find-update_record,
  can_transition_open, check_record_ok, resolve_record-Resolved,
}
use loanapp.Ledger.Entries.{is_nil}
use loanapp.Loan.Roles.{system, super_admin}
use loanapp.Reconciliation.Records.{
  is_terminal, resolved_record, is_adjustment, is_write_off, is_closed, suspense, mismatch,
  find_record, ReconciliationRecord, resolve_record, ReconciliationBook, ResolveInput,
}
use loanapp.Disbursement.Records.{Principal}
use loanapp.Common.{refl, ◌∙◌, ap, err, Error, true, false, ◌⊎◌, some, ◌≡◌, Text, ℕ, ok}

-- A record that is resolved was a mismatch or in suspense and not of a closed batch. However many
-- resolutions of the tenant's records follow, a further one of this record, whoever asks in whatever
-- way, is refused, as long as no run of the reconciliation has written the record anew. SUPER_ADMIN
-- alone writes it off, and only SUPER_ADMIN and SYSTEM resolve it with lines of adjustment, which
-- the ledger refuses to every other role.
pub resolve_record_once :
    (column : ℕ → ℕ) (fresh : Text) (now : ℕ) (p : Principal) (id : Text) (i : ResolveInput)
    (b : ReconciliationBook) {b' : ReconciliationBook}
    → resolve_record column fresh now p id i b ≡ ok b'
    → ((r : ReconciliationRecord) × (find_record p.tenant id b.records ≡ some r)
        × ((r.status ≡ mismatch) ⊎ (r.status ≡ suspense))
        × (is_closed r.batch ≡ false))
      × (is_write_off i.resolution ≡ true → p.role ≡ super_admin)
      × (is_adjustment i.resolution ≡ true
          → is_nil i.lines ≡ false
          → (p.role ≡ super_admin) ⊎ (p.role ≡ system))
      × ((c : ReconciliationBook)
          → Resolutions column p.tenant b' c
          → (other : Text) (later : ℕ) (q : Principal) (j : ResolveInput) → q.tenant ≡ p.tenant
          → (e : Error) × (resolve_record column other later q id j c ≡ err e))
resolve_record_once column fresh now p id i b {b'} e =
    let (r, found, s) = resolve_record-Resolved column fresh now p id i b e in
    let (unlocked, target, moves) = check_record_ok p.role i.resolution r s.checked in
    let (open_before, terminal) = can_transition_open r.status s.to moves in
    let done = resolved_record now p i s.to in
    let found' : find_record p.tenant id b'.records ≡ some (done r) =
      ap (find_record p.tenant id) s.records_of
      ∙ find-update_record p.tenant id done b.records (λ x. unfold resolved_record in (refl, refl))
          found in
    let ended : is_terminal (done r).status ≡ true = unfold resolved_record in terminal in
    (
      (r, found, open_before, unlocked),
      λ w. ((target_status_ok p.role i.resolution target).0 w).0,
      post_adjustment_rights column fresh now p i r b.ledger s.adjustment_posted,
      λ c more other later q j same.
          let (x, there, over) =
            Resolutions-Ended column p.tenant id b' more (done r, found', ended) in
          resolve_record-terminal column other later q id j c
            (ap (λ t. find_record t id c.records) same ∙ there) over,
    )
