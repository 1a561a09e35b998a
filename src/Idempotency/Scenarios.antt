-- ===== src/Idempotency/Scenarios.antt =====
-- A counter behind a key, at which the theorems apply.
use loanapp.Common.{
  request_in_progress, loan_not_found, ◌+◌, Option, some, refl, err, ok, codes, is_space, [],
  Result, is_empty, ◌≡◌, ℕ, trim,
}
use loanapp.Idempotency.Keys.{
  decide, find_key, started, lock, Request, look_up, Store, run, with_idempotency,
}
use loanapp.Idempotency.Replays.{
  with_idempotency-retries, interleaved-both_run, with_idempotency-replays, Same,
}

abbrev first_request : Request
first_request = record {
  tenant = codes "t1";
  scope = codes "REPAYMENT";
  key = codes "k1 ";
  request_hash = some (codes "h1");
}

abbrev same_request : Request
same_request = record {
  tenant = codes "t1";
  scope = codes "REPAYMENT";
  key = codes " k1";
  request_hash = some (codes "h2");
}

abbrev counter : Store ℕ ℕ
counter = record { keys = []; db = 4 }

abbrev count_up : ℕ → Result (ℕ × Option ℕ)
count_up n = ok (n + 1, some (n + 1))

abbrev count_fails : ℕ → Result (ℕ × Option ℕ)
count_fails n = err loan_not_found

requests-Same : Same first_request same_request
unfolding trim is_space
requests-Same = (refl, refl, refl)

free_key : look_up first_request counter.keys ≡ started
unfolding look_up is_empty trim is_space find_key decide
free_key = refl

with_idempotency-replays_example :
    (after : Store ℕ ℕ) × (with_idempotency first_request count_up counter ≡ (after, ok (some 5)))
    × (after.db ≡ 5)
    × (with_idempotency same_request count_fails after ≡ (after, ok (some 5)))
with_idempotency-replays_example =
    with_idempotency-replays first_request same_request count_up count_fails counter {db = 5}
      {x = 5} requests-Same free_key refl

with_idempotency-retries_example :
    (after : Store ℕ ℕ) × (with_idempotency first_request count_fails counter
      ≡ (after, err loan_not_found))
    × (after.db ≡ 4)
    × (with_idempotency same_request count_up after
        ≡ run same_request count_up (lock same_request after))
with_idempotency-retries_example =
    with_idempotency-retries first_request same_request count_fails count_up counter
      {e = loan_not_found} requests-Same free_key refl

interleaved-both_run_example :
    let after = (run first_request count_up (lock first_request counter)).0 in
    (with_idempotency same_request count_up (lock first_request counter)
      ≡ (lock first_request counter, err request_in_progress))
    × (look_up same_request counter.keys ≡ started)
    × (after.db ≡ 5)
    × ((run same_request count_up (lock same_request after)).0.db ≡ 6)
    × ((run same_request count_up (lock same_request after)).1 ≡ ok (some 6))
interleaved-both_run_example =
    interleaved-both_run first_request same_request count_up count_up counter {db = 5} {db' = 6}
      {x = some 5} {y = some 6} requests-Same free_key refl refl
