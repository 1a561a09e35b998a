-- ===== src/Idempotency/Keys.antt =====
-- `TenantIdempotencyService.withIdempotency`, in
-- apps/api/src/common/idempotency/tenant-idempotency.service.ts. The call that it protects is a
-- parameter: a transaction on the rest of the database, which a throw rolls back, and whose result
-- may be null. A result in `Result` is what the call returns or throws.
use loanapp.Common.{
  idempotency_key_required, codes, ◌&&◌, request_in_progress, is_empty, [], none, ok, err, ◌∷◌,
  if◌then◌else◌, some, ◌++◌, text_eq, Option, Error, List, Result, trim, Bool, Text,
}

-- `IdempotencyStatus`
pub data KeyStatus : Type 0 where
  pending completed failed : KeyStatus

-- A row of `IdempotencyKey`, with the response as JSON, absent if it is null.
pub record KeyRow (R : Type 0) : Type 0 where
  pub tenant : Text
  pub scope : Text
  pub key : Text
  pub request_hash : Text
  pub status : KeyStatus
  pub response : Option R

-- The input of `withIdempotency` but for the call.
pub record Request : Type 0 where
  pub tenant : Text
  pub scope : Text
  pub key : Text
  pub request_hash : Option Text

pub record Store (S R : Type 0) : Type 0 where
  pub keys : List (KeyRow R)
  pub db : S

-- What the guards before the lock decide.
pub data Lookup (R : Type 0) : Type 0 where
  replay : R → Lookup R
  refused : Error → Lookup R
  started : Lookup R

unfoldable pub hash_or : Option Text → Text → Text
hash_or none d = d
hash_or (some h) d = h

module _ {R : Type 0} where
  -- `where: { tenantId_scope_key: … }`
  unfoldable pub is_key : Request → KeyRow R → Bool
  is_key i r = text_eq r.tenant i.tenant && text_eq r.scope i.scope && text_eq r.key (trim i.key)

  unfoldable pub find_key : Request → List (KeyRow R) → Option (KeyRow R)
  find_key i [] = none
  find_key i (r ∷ rs) = if is_key i r then some r else find_key i rs

  unfoldable pub update_key : Request → (KeyRow R → KeyRow R) → List (KeyRow R) → List (KeyRow R)
  update_key i f [] = []
  update_key i f (r ∷ rs) = if is_key i r then f r ∷ rs else r ∷ update_key i f rs

  unfoldable pub new_row : Request → KeyRow R
  new_row i = record {
    tenant = i.tenant;
    scope = i.scope;
    key = trim i.key;
    request_hash = hash_or i.request_hash (i.scope ++ codes ":" ++ trim i.key);
    status = pending;
    response = none;
  }

  -- `update: { status: PENDING, requestHash: input.requestHash ?? undefined }`
  unfoldable pub lock_row : Request → KeyRow R → KeyRow R
  lock_row i r = record r { status = pending; request_hash = hash_or i.request_hash r.request_hash }

  unfoldable pub upsert_key : Request → List (KeyRow R) → List (KeyRow R)
  upsert_key i rs = elim (find_key i rs) [
    | none ↦ new_row i ∷ rs
    | some r ↦ update_key i (lock_row i) rs
  ]

  unfoldable pub decide : Option (KeyRow R) → Lookup R
  decide none = started
  decide (some r) = elim r.status [
    | completed ↦ elim r.response [ some x ↦ replay x | none ↦ started ]
    | pending ↦ refused request_in_progress
    | failed ↦ started
  ]

  -- The guards before the lock.
  unfoldable pub look_up : Request → List (KeyRow R) → Lookup R
  look_up i rs =
      if is_empty (trim i.key) then refused idempotency_key_required else decide (find_key i rs)

  unfoldable pub complete_row : Option R → KeyRow R → KeyRow R
  complete_row x r = record r { status = completed; response = x }

  unfoldable pub fail_row : KeyRow R → KeyRow R
  fail_row r = record r { status = failed }

  module _ {S : Type 0} where
    -- `const lock = await this.prisma.idempotencyKey.upsert(…)`
    unfoldable pub lock : Request → Store S R → Store S R
    lock i s = record s { keys = upsert_key i s.keys }

    -- The `try` and the `catch`.
    unfoldable pub run :
        Request → (S → Result (S × Option R)) → Store S R → Store S R × Result (Option R)
    run i fn s = elim (fn s.db) [
      | err e ↦ (record s { keys = update_key i fail_row s.keys }, err e)
      | ok r ↦ (record { keys = update_key i (complete_row r.1) s.keys; db = r.0 }, ok r.1)
    ]

    unfoldable pub with_idempotency :
        Request → (S → Result (S × Option R)) → Store S R → Store S R × Result (Option R)
    with_idempotency i fn s = elim (look_up i s.keys) [
      | replay x ↦ (s, ok (some x))
      | refused e ↦ (s, err e)
      | started ↦ run i fn (lock i s)
    ]
