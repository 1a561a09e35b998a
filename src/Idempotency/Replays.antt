-- ===== src/Idempotency/Replays.antt =====
-- What an idempotency key protects from, and what it does not.
use loanapp.Common.{
  idempotency_key_required, false, is_empty, request_in_progress, sym, err, ok, Error, Result, inr,
  text_eq_refl, ap, arith, none, ◌∙◌, Option, inl, refl, [], Bool-cases, ◌∷◌, some, trim, List, ◌≡◌,
}
use loanapp.Idempotency.Keys.{
  Lookup, refused, KeyStatus, fail_row, decide, replay, complete_row, started, look_up, Store, lock,
  with_idempotency, run, lock_row, new_row, KeyRow, is_key, update_key, Request, find_key,
  upsert_key,
}

-- The same tenant, scope and key, whatever the request's hash.
abbrev pub Same : Request → Request → Type 0
Same i j = (i.tenant ≡ j.tenant) × (i.scope ≡ j.scope) × (trim i.key ≡ trim j.key)

module _ {R : Type 0} where
  find-Same : (i j : Request) (rs : List (KeyRow R)) → Same i j → find_key i rs ≡ find_key j rs
  unfolding find_key is_key
  find-Same i j [] h = refl
  find-Same i j (r ∷ rs) h = rw (h.0, h.1, h.2, find-Same i j rs h) refl

  -- An update of the row of a key, which keeps the key, is what is found afterwards.
  find-update_key :
      (i : Request) (f : KeyRow R → KeyRow R)
      → ((r : KeyRow R) → is_key i (f r) ≡ is_key i r)
      → (rs : List (KeyRow R)) {r : KeyRow R} → find_key i rs ≡ some r
      → find_key i (update_key i f rs) ≡ some (f r)
  unfolding find_key update_key
  find-update_key i f keeps [] h = cc
  find-update_key i f keeps (x ∷ rs) {r} h = elim (Bool-cases (is_key i x)) [
    | inl p ↦
        let kept = keeps x ∙ p in
        let same : some x ≡ some r = ground arith in
        let e : x ≡ r = cc in rw (p, kept) (ap (λ y. some (f y)) e)
    | inr p ↦ rw (p, p) (find-update_key i f keeps rs (ground arith))
  ]

  find-upsert_key :
      (i : Request) (rs : List (KeyRow R))
      → (r : KeyRow R) × (find_key i (upsert_key i rs) ≡ some r) × (r.status ≡ KeyStatus.pending)
  unfolding upsert_key
  find-upsert_key i rs = by_found (find_key i rs) refl
    where
      by_found :
          (o : Option (KeyRow R))
          → find_key i rs ≡ o
          → (r : KeyRow R) × (find_key i
                (elim o [ none ↦ new_row i ∷ rs | some x ↦ update_key i (lock_row i) rs ])
              ≡ some r)
            × (r.status ≡ KeyStatus.pending)
      by_found none h = (
        new_row i,
        unfold find_key is_key new_row in
            rw (text_eq_refl i.tenant, text_eq_refl i.scope, text_eq_refl (trim i.key)) refl,
        unfold new_row in refl,
      )
      by_found (some x) h = (
        lock_row i x,
        find-update_key i (lock_row i) (λ r. unfold is_key lock_row in refl) rs h,
        unfold lock_row in refl,
      )

  started_key :
      (i : Request) (rs : List (KeyRow R)) → look_up i rs ≡ started → is_empty (trim i.key) ≡ false
  unfolding look_up
  started_key i rs h = elim (Bool-cases (is_empty (trim i.key))) [
    | inl p ↦
        let clash : ◌≡◌ {A = Lookup R} (refused idempotency_key_required) started =
          sym (rw p refl) ∙ h in
        cc
    | inr p ↦ p
  ]

  -- What a call with the same key decides on a row that is there.
  look_up-found :
      (i j : Request) (rs keys : List (KeyRow R)) {r : KeyRow R}
      → Same i j
      → look_up i rs ≡ started
      → find_key i keys ≡ some r
      → look_up j keys ≡ decide (some r)
  look_up-found i j rs keys {r} same free found =
      let filled = started_key i rs free in
      let filled' : is_empty (trim j.key) ≡ false = rw (← same.2) filled in
      let found' : find_key j keys ≡ some r = sym (find-Same i j keys same) ∙ found in
      unfold look_up in rw (filled', found') refl

  -- A call that throws leaves the row of the key failed, one that returns leaves it completed.
  module _ {S : Type 0} where
    with_idempotency-run :
        (i : Request) (fn : S → Result (S × Option R)) (s : Store S R)
        → look_up i s.keys ≡ started
        → with_idempotency i fn s ≡ run i fn (lock i s)
    unfolding with_idempotency
    with_idempotency-run i fn s free = rw (free, with_idempotency) refl

    run_ok :
        (i : Request) (fn : S → Result (S × Option R)) (s : Store S R) {db : S} {x : Option R}
        → fn s.db ≡ ok (db, x)
        → let keys = update_key i (complete_row x) (upsert_key i s.keys) in
          (run i fn (lock i s) ≡ (record { keys = keys; db = db }, ok x))
          × ((r : KeyRow R) × (find_key i keys ≡ some (complete_row x r)))
    unfolding run lock
    run_ok i fn s {db} {x} h =
        let (r, found, _) = find-upsert_key i s.keys in
        (
          rw (h, run) refl,
          (
            r,
            find-update_key i (complete_row x) (λ y. unfold is_key complete_row in refl)
                (upsert_key i s.keys) found,
          ),
        )

    run_err :
        (i : Request) (fn : S → Result (S × Option R)) (s : Store S R) {e : Error}
        → fn s.db ≡ err e
        → let keys = update_key i fail_row (upsert_key i s.keys) in
          (run i fn (lock i s) ≡ (record { keys = keys; db = s.db }, err e))
          × ((r : KeyRow R) × (find_key i keys ≡ some (fail_row r)))
    unfolding run lock
    run_err i fn s {e} h =
        let (r, found, _) = find-upsert_key i s.keys in
        (
          rw (h, run) refl,
          (
            r,
            find-update_key i fail_row (λ y. unfold is_key fail_row in refl) (upsert_key i s.keys)
                found,
          ),
        )

    -- A call that runs and returns something is not run again: a later call with the key, whatever
    -- its hash and whatever it would do, changes nothing and returns the same.
    pub with_idempotency-replays :
        (i j : Request) (fn again : S → Result (S × Option R)) (s : Store S R) {db : S} {x : R}
        → Same i j
        → look_up i s.keys ≡ started
        → fn s.db ≡ ok (db, some x)
        → (after : Store S R) × (with_idempotency i fn s ≡ (after, ok (some x)))
          × (after.db ≡ db)
          × (with_idempotency j again after ≡ (after, ok (some x)))
    with_idempotency-replays i j fn again s {db} {x} same free h =
        let (ran, (r, found)) = run_ok i fn s h in
        let keys = update_key i (complete_row (some x)) (upsert_key i s.keys) in
        let next : look_up j keys ≡ replay x =
          look_up-found i j s.keys keys same free found ∙ unfold decide complete_row in refl in
        (
          record { keys = keys; db = db },
          with_idempotency-run i fn s free ∙ ran,
          refl,
          unfold with_idempotency in rw (next, with_idempotency) refl,
        )

    -- A call that throws leaves the database as it was, and a later call with the key runs.
    pub with_idempotency-retries :
        (i j : Request) (fn again : S → Result (S × Option R)) (s : Store S R) {e : Error}
        → Same i j
        → look_up i s.keys ≡ started
        → fn s.db ≡ err e
        → (after : Store S R) × (with_idempotency i fn s ≡ (after, err e))
          × (after.db ≡ s.db)
          × (with_idempotency j again after ≡ run j again (lock j after))
    with_idempotency-retries i j fn again s {e} same free h =
        let (ran, (r, found)) = run_err i fn s h in
        let keys = update_key i fail_row (upsert_key i s.keys) in
        let next : look_up j keys ≡ started =
          look_up-found i j s.keys keys same free found ∙ unfold decide fail_row in refl in
        let after : Store S R = record { keys = keys; db = s.db } in
        (
          after,
          with_idempotency-run i fn s free ∙ ran,
          refl,
          with_idempotency-run j again after next,
        )

    -- While a call runs, between its lock and its end, every other call with the key is refused
    -- and changes nothing.
    pub with_idempotency-excludes :
        (i j : Request) (fn : S → Result (S × Option R)) (s : Store S R)
        → Same i j
        → look_up i s.keys ≡ started
        → with_idempotency j fn (lock i s) ≡ (lock i s, err request_in_progress)
    unfolding with_idempotency decide
    with_idempotency-excludes i j fn s same free =
        let (r, found, waits) = find-upsert_key i s.keys in
        let next : look_up j (lock i s).keys ≡ refused request_in_progress =
          unfold lock in
          look_up-found i j s.keys (upsert_key i s.keys) same free found
          ∙ rw (waits, decide) refl in
        rw (next, with_idempotency) refl

    -- The lookup and the lock are two statements. Where the key is free and both calls would
    -- succeed: a second call with it that looks it up after the first has locked it, and before the
    -- first has returned, is refused and changes nothing. One that has looked it up before the first
    -- has locked it runs: after the first has returned, it works on the database that the first has
    -- left.
    pub interleaved-both_run :
        (i j : Request) (fn other : S → Result (S × Option R)) (s : Store S R) {db db' : S}
        {x y : Option R}
        → Same i j
        → look_up i s.keys ≡ started
        → fn s.db ≡ ok (db, x)
        → other db ≡ ok (db', y)
        → (with_idempotency j other (lock i s) ≡ (lock i s, err request_in_progress))
          × (look_up j s.keys ≡ started)
          × ((run i fn (lock i s)).0.db ≡ db)
          × ((run j other (lock j (run i fn (lock i s)).0)).0.db ≡ db')
          × ((run j other (lock j (run i fn (lock i s)).0)).1 ≡ ok y)
    unfolding run
    interleaved-both_run i j fn other s same free h h' =
        let both = find-Same i j s.keys same in
        (
          with_idempotency-excludes i j other s same free,
          unfold look_up in rw (← same.2, ← both) free,
          unfold lock in rw (h, run) refl,
          unfold lock in rw (h, h', run) refl,
          unfold lock in rw (h, h', run) refl,
        )
