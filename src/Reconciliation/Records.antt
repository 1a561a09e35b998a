-- ===== src/Reconciliation/Records.antt =====
-- The resolution of a reconciliation record: `resolveRecord` of
-- apps/api/src/modules/reconciliation/reconciliation.service.ts. The audit after it is left out.
use loanapp.Ledger.Accounts.{credit, loan_principal_receivable, debit, write_off_expense}
use loanapp.Disbursement.Transaction.{note_or}
use loanapp.Risk.Gate.{is_super}
use loanapp.Ledger.Reversal.{create_journal, JournalInput}
use loanapp.Ledger.Entries.{is_nil, post_entry, units_per_cent, EntryType, EntryInput, Ledger, Line}
use loanapp.Disbursement.Records.{Principal}
use loanapp.Loan.Roles.{Role}
use loanapp.Common.{
  invalid_reconciliation, record_is_terminal, ◌-◌, role_cannot_write_off, ◌+◌, batch_is_closed,
  negsuc, ◌++◌, not, [], ◌&&◌, guard, text_eq, ◌>>=◌, codes, record_not_found, err, false, ◌>>◌,
  ◌∷◌, if◌then◌else◌, trimmed_or_null, ◌*◌, pos, map, none, some, Result, true, ℕ, List, Text, ℤ,
  Option, Bool, ok,
}

-- `ReconciliationStatus`
pub data RecordStatus : Type 0 where
  matched mismatch suspense resolved write_off : RecordStatus

-- `ReconciliationResolutionType`
pub data ResolutionType : Type 0 where
  manual_adjustment write_off provider_error internal_error duplicate refund : ResolutionType

pub data BatchStatus : Type 0 where
  opened closed : BatchStatus

-- A row of `ReconciliationRecord`, with the status of its settlement batch.
pub record ReconciliationRecord : Type 0 where
  pub id : Text
  pub tenant : Text
  pub batch : Option BatchStatus
  pub amount_minor : ℤ
  pub currency : Text
  pub status : RecordStatus
  pub resolved_at : Option ℕ
  pub resolved_by : Option Text
  pub resolution_type : Option ResolutionType
  pub resolution_note : Option Text

-- A row of `ReconciliationResolutionHistory`.
pub record ResolutionMove : Type 0 where
  pub record_id : Text
  pub from : RecordStatus
  pub to : RecordStatus
  pub resolution_type : ResolutionType
  pub note : Option Text
  pub acted_by : Text

pub record ReconciliationBook : Type 0 where
  pub records : List ReconciliationRecord
  pub ledger : Ledger
  pub history : List ResolutionMove

-- `ResolveReconciliationRecordDto`; an adjustment that is missing has no lines.
pub record ResolveInput : Type 0 where
  pub resolution : ResolutionType
  pub note : Option Text
  pub lines : List Line

-- `canTransitionReconciliationStatus`
unfoldable pub can_transition : RecordStatus → RecordStatus → Bool
can_transition mismatch resolved = true
can_transition mismatch write_off = true
can_transition suspense resolved = true
can_transition suspense write_off = true
can_transition _ _ = false

abbrev pub is_terminal : RecordStatus → Bool
is_terminal resolved = true
is_terminal write_off = true
is_terminal _ = false

abbrev pub is_closed : Option BatchStatus → Bool
is_closed (some closed) = true
is_closed _ = false

abbrev pub is_write_off : ResolutionType → Bool
is_write_off write_off = true
is_write_off _ = false

abbrev pub is_adjustment : ResolutionType → Bool
is_adjustment manual_adjustment = true
is_adjustment _ = false

-- `findFirst({ where: { id, tenantId } })`
unfoldable pub find_record : Text → Text → List ReconciliationRecord → Option ReconciliationRecord
find_record tenant id [] = none
find_record tenant id (r ∷ rs) =
    if text_eq r.tenant tenant && text_eq r.id id then some r else find_record tenant id rs

-- `update({ where: { id }, data })`
unfoldable pub update_record :
    Text
    → (ReconciliationRecord → ReconciliationRecord)
    → List ReconciliationRecord
    → List ReconciliationRecord
update_record id f rs = map (λ r. if text_eq r.id id then f r else r) rs

-- `toStatus`, and `assertCanWriteOff`.
unfoldable pub target_status : Role → ResolutionType → Result RecordStatus
target_status role type =
    if is_write_off type
    then (do guard (is_super role) role_cannot_write_off; ok RecordStatus.write_off)
    else ok resolved

-- `new Prisma.Decimal(amountMinor).div(100)`
abbrev pub minor_amount : ℤ → ℤ
minor_amount (pos n) = pos (n * units_per_cent)
minor_amount (negsuc n) = negsuc ((n + 1) * units_per_cent - 1)

unfoldable pub adjustment_journal :
    ℕ → Principal → ResolveInput → ReconciliationRecord → JournalInput
adjustment_journal now p i r = record {
  tenant = p.tenant;
  reference_type = codes "RECONCILIATION_ADJUSTMENT";
  reference_id = r.id;
  key = codes "recon-adjust:" ++ r.id;
  created_by = some p.admin_id;
  actor_role = some p.role;
  memo = some (note_or i.note (codes "Manual reconciliation adjustment"));
  occurred_at = now;
  entries = map (λ l. (l, some r.currency)) i.lines;
}

unfoldable pub write_off_entry : ℕ → Principal → ResolveInput → ReconciliationRecord → EntryInput
write_off_entry now p i r = record {
  tenant = p.tenant;
  occurred_at = now;
  type = EntryType.write_off;
  key = codes "recon-writeoff:" ++ r.id;
  reference_type = codes "ReconciliationRecord";
  reference_id = r.id;
  currency = some r.currency;
  created_by = some p.admin_id;
  actor_role = some p.role;
  memo = some (note_or i.note (codes "Reconciliation write-off"));
  lines =
      record {
        account = write_off_expense;
        direction = debit;
        amount = minor_amount r.amount_minor;
      }
      ∷ record {
        account = loan_principal_receivable;
        direction = credit;
        amount = minor_amount r.amount_minor;
      }
      ∷ [];
}

unfoldable pub resolved_record :
    ℕ → Principal → ResolveInput → RecordStatus → ReconciliationRecord → ReconciliationRecord
resolved_record now p i to r = record r {
  status = to;
  resolved_at = some now;
  resolved_by = some p.admin_id;
  resolution_type = some i.resolution;
  resolution_note = trimmed_or_null i.note;
}

-- The guards on the record, in their order.
unfoldable pub check_record : Role → ResolutionType → ReconciliationRecord → Result RecordStatus
check_record role type r = do
  guard (not (is_closed r.batch)) batch_is_closed
  guard (not (is_terminal r.status)) record_is_terminal
  to ← target_status role type
  guard (can_transition r.status to) invalid_reconciliation
  ok to

unfoldable pub post_adjustment :
    (ℕ → ℕ) → Text → ℕ → Principal → ResolveInput → ReconciliationRecord → Ledger → Result Ledger
post_adjustment column fresh now p i r g =
    if is_adjustment i.resolution && not (is_nil i.lines)
    then (do posted ← create_journal column fresh (adjustment_journal now p i r) g; ok posted.0)
    else ok g

unfoldable pub post_write_off :
    (ℕ → ℕ) → Text → ℕ → Principal → ResolveInput → ReconciliationRecord → Ledger → Result Ledger
post_write_off column fresh now p i r g =
    if is_write_off i.resolution
    then (do posted ← post_entry column fresh (write_off_entry now p i r) g; ok posted.0)
    else ok g

-- `resolveRecord`
unfoldable pub resolve_record :
    (ℕ → ℕ)
    → Text
    → ℕ
    → Principal
    → Text
    → ResolveInput
    → ReconciliationBook
    → Result ReconciliationBook
resolve_record column fresh now p id i b = elim (find_record p.tenant id b.records) [
  | none ↦ err record_not_found
  | some r ↦ do
    to ← check_record p.role i.resolution r
    adjusted ← post_adjustment column fresh now p i r b.ledger
    written ← post_write_off column fresh now p i r adjusted
    ok (record {
      records = update_record r.id (resolved_record now p i to) b.records;
      ledger = written;
      history =
          record {
            record_id = r.id;
            from = r.status;
            to = to;
            resolution_type = i.resolution;
            note = trimmed_or_null i.note;
            acted_by = p.admin_id;
          }
          ∷ b.history;
    })
]
