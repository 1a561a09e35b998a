-- ===== src/Disbursement/Retries.antt =====
-- A failed disbursement and its retry, through the idempotency key that both share.
use loanapp.Idempotency.Replays.{with_idempotency-replays, Same}
use loanapp.Disbursement.Transaction.{disburse_transaction}
use loanapp.Idempotency.Keys.{started, look_up}
use loanapp.Disbursement.Records.{
  is_failed, find_by_id, DisbursementStatus, Disbursement, Book, DisburseInput, Principal,
}
use loanapp.Disbursement.Requests.{
  is_system, default_key, check_retry, assert_ops, retry_input, requested_key, disburse_request,
  check_principal, DisburseStore, Surroundings, retry_disbursement, disburse_now,
}
use loanapp.Common.{
  auto_disburse_disabled, ◌>>◌, ◌&&◌, not_failed, not, guard, >>=-eq-ok, List, refl, ◌∙◌, trim, ap,
  sym, some, none, ◌≡◌, trimmed_or_null, Bool, Option, Text, ℕ, ok,
}

requested_key_default :
    (i : DisburseInput)
    → trimmed_or_null i.idempotency_key ≡ none
    → requested_key i ≡ default_key i.loan_id
unfolding requested_key
requested_key_default i h = rw (h, requested_key) refl

requested_key_retry :
    (d : Disbursement) (note : Option Text) (force_fail : Bool)
    → requested_key (retry_input d note force_fail) ≡ default_key d.loan_id
unfolding requested_key retry_input trimmed_or_null
requested_key_retry d _ _ = refl

principal-ops :
    (auto : Bool) (p : Principal) → check_principal auto p ≡ ok tt → assert_ops p ≡ ok tt
unfolding check_principal
principal-ops auto p h =
    let (_, _, e) =
      >>=-eq-ok (guard (not (is_system p.role && not auto)) auto_disburse_disabled) _ h in
    e

check_retry_failed :
    (id : Text) (ds : List Disbursement) (d : Disbursement)
    → find_by_id id ds ≡ some d
    → d.status ≡ DisbursementStatus.failed
    → check_retry id ds ≡ ok d
unfolding check_retry
check_retry_failed id ds d found failed = rw (found, check_retry) (by_status failed)
  where
    by_status :
        d.status ≡ DisbursementStatus.failed
        → (guard (is_failed d.status) not_failed >> ok d) ≡ ok d
    by_status h = rw (h) refl

-- `retryDisbursement` passes no key on, so a retry of a disbursement made without a key runs under
-- the same key: the failure that the provider reported, stored as the key's response, is answered
-- to it, and it changes nothing, whoever asks and whatever the provider would say by then.
pub retry_disbursement-replays :
    (column : ℕ → ℕ) (c c' : Surroundings) (p q : Principal) (i : DisburseInput) (s : DisburseStore)
    (id : Text) (note : Option Text) (force_fail : Bool) {b : Book} {d : Disbursement}
    → trimmed_or_null i.idempotency_key ≡ none
    → q.tenant ≡ p.tenant
    → check_principal c.auto_disburse p ≡ ok tt
    → check_principal c'.auto_disburse q ≡ ok tt
    → look_up (disburse_request p i c.hash) s.keys ≡ started
    → disburse_transaction column c.provider_fails c.ids p i (requested_key i) s.db
      ≡ ok (b, some (id, DisbursementStatus.failed))
    → find_by_id id b.disbursements ≡ some d
    → d.status ≡ DisbursementStatus.failed
    → d.loan_id ≡ i.loan_id
    → (after : DisburseStore) × (disburse_now column c p i s
        ≡ (after, ok (some (id, DisbursementStatus.failed))))
      × (after.db ≡ b)
      × (retry_disbursement column c' q id note force_fail after
          ≡ (after, ok (some (id, DisbursementStatus.failed))))
unfolding disburse_now retry_disbursement
retry_disbursement-replays column c c' p q i s id note force_fail {b} {d} unkeyed tenant may may'
      free ran found failed loan =
    let again = retry_input d note force_fail in
    let same_key : requested_key again ≡ requested_key i =
      requested_key_retry d note force_fail
      ∙ ap default_key loan
      ∙ sym (requested_key_default i unkeyed) in
    let same : Same (disburse_request p i c.hash) (disburse_request q again c'.hash) =
      unfold disburse_request in (sym tenant, refl, ap trim (sym same_key)) in
    let (after, first, db, next) =
      with_idempotency-replays (disburse_request p i c.hash) (disburse_request q again c'.hash)
        (disburse_transaction column c.provider_fails c.ids p i (requested_key i))
        (disburse_transaction column c'.provider_fails c'.ids q again (requested_key again)) s
        {db = b} {x = (id, DisbursementStatus.failed)} same free ran in
    let found' : find_by_id id after.db.disbursements ≡ some d =
      ap (λ (x : Book). find_by_id id x.disbursements) db ∙ found in
    let ops : assert_ops q ≡ ok tt = principal-ops c'.auto_disburse q may' in
    let checked : check_retry id after.db.disbursements ≡ ok d =
      check_retry_failed id after.db.disbursements d found' failed in
    (
      after,
      rw (may, disburse_now) first,
      db,
      rw (ops, checked, retry_disbursement) (rw (may', disburse_now) next),
    )
