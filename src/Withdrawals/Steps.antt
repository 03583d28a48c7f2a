-- ===== src/Withdrawals/Steps.antt =====
-- The life of the withdrawal requests, as committed transactions one after the other.
pub mod Service
use myturn_webportal.Prelude.{
  ℕ, suc, ◌+◌, ◌≤◌, ◌<◌, ◌≡◌, ◌≢◌, refl, sym, ap, ◌∙◌, ◌⊎◌, inl, inr, Bool, true, false, Option,
  none, some, List, [], ◌∷◌, arith, Bool-cases, ok, ◌==◌, Result, All, find_first, if◌then◌else◌,
}
use mathlib.Core.Option.{some-injective}
use myturn_webportal.Ledger.Account.{AccountKey}
use myturn_webportal.Ledger.Posting.{Ledger, Posted}
use myturn_webportal.Store.Rows.{WithdrawalRequest, WithdrawalStatus}
use myturn_webportal.Store.Lemmas.{
  All-update, All-find, All-update-other, HasUniqueIds, HasUniqueIds-update, sum_by, sum_by-update,
  find_first-holds,
}
use myturn_webportal.Store.{update_rows, Db}
use myturn_webportal.Wallet.{is_in_flight}
use myturn_webportal.Withdrawals.Held.{IsHeld, IsSound, in_flight_amount}
use myturn_webportal.Withdrawals.Hold.{HoldParams, hold_in_tx, new_withdrawal}
use myturn_webportal.Withdrawals.Hold.Start.{hold-ok, hold_in_tx-IsHeld}
use myturn_webportal.Withdrawals.Settle.{
  find_withdrawal, set_withdrawal, completed_row, failed_row, complete_in_tx, fail_in_tx,
}
use myturn_webportal.Withdrawals.Settle.Cases.{
  Ended, EndCases, complete_in_tx-cases, fail_in_tx-cases,
}
use myturn_webportal.Withdrawals.Settle.Outcome.{complete_in_tx-IsHeld, fail_in_tx-IsHeld}
use myturn_webportal.Withdrawals.Disburse.{processing_row}

-- A hold, the update to PROCESSING, a completion or a failure.
pub data Step (db : Db) : Db → Type 0 where
  hold_step :
      (params : HoldParams) (source : AccountKey) (amount now : ℕ) (res : WithdrawalRequest)
      (db' : Db)
      → hold_in_tx params source amount now db ≡ ok (res, db')
      → Step db db'
  process_step :
      (ref : ℕ) (w : WithdrawalRequest)
      → find_withdrawal w.id db.withdrawals ≡ some w
      → is_in_flight w.status ≡ true
      → Step db (set_withdrawal (processing_row ref) w.id db)
  complete_step :
      (id ref : ℕ) (res : WithdrawalRequest) (db' : Db)
      → complete_in_tx id ref db ≡ ok (res, db')
      → Step db db'
  fail_step :
      (id : ℕ) (res : WithdrawalRequest) (db' : Db) → fail_in_tx id db ≡ ok (res, db') → Step db db'

pub data Steps (db : Db) : Db → Type 0 where
  stay : Steps db db
  then_step : {db₁ db₂ : Db} → Steps db db₁ → Step db₁ db₂ → Steps db db₂

process-IsHeld :
    (ref : ℕ) (w : WithdrawalRequest) (db : Db)
    → IsHeld db
    → find_withdrawal w.id db.withdrawals ≡ some w
    → is_in_flight w.status ≡ true
    → IsHeld (set_withdrawal (processing_row ref) w.id db)
unfolding find_withdrawal
process-IsHeld ref w db held found flying = record {
  unique_ids =
      HasUniqueIds-update (λ x. x.id) _ (processing_row ref) db.withdrawals (λ x. refl)
        held.unique_ids;
  below =
      All-update (λ x. x.id) (λ x. x.id < db.next_id) _ (processing_row ref) db.withdrawals w
        held.unique_ids found (λ lt. lt) held.below;
  sound =
      All-update (λ x. x.id) (IsSound db.ledger) _ (processing_row ref) db.withdrawals w
        held.unique_ids found still_sound held.sound;
  fresh = held.fresh;
  cleared =
      rw
        (same_sum (
          sum_by-update (λ x. x.id) in_flight_amount _ (processing_row ref) db.withdrawals w
            held.unique_ids found))
        held.cleared;
}
  where
    still_sound : IsSound db.ledger w → IsSound db.ledger (processing_row ref w)
    still_sound s = record {
      positive = s.positive;
      source = s.source;
      can_complete = λ _. s.can_complete flying;
      can_release = λ _. s.can_release flying;
    }

    same_sum :
        sum_by in_flight_amount
              (update_rows (λ x. x.id == w.id) (processing_row ref) db.withdrawals)
            + in_flight_amount w
          ≡ sum_by in_flight_amount db.withdrawals + w.amount
        → sum_by in_flight_amount
            (update_rows (λ x. x.id == w.id) (processing_row ref) db.withdrawals)
          ≡ sum_by in_flight_amount db.withdrawals
    same_sum e = let e₁ = rw flying at e in omega arith

Step-IsHeld : {db db' : Db} → Step db db' → IsHeld db → IsHeld db'
Step-IsHeld {db} (hold_step params source amount now res db' h) held =
    hold_in_tx-IsHeld params source amount now db db' res h held
Step-IsHeld {db} (process_step ref w found flying) held = process-IsHeld ref w db held found flying
Step-IsHeld {db} (complete_step id ref res db' h) held =
    complete_in_tx-IsHeld id db db' res held ref h
Step-IsHeld {db} (fail_step id res db' h) held = fail_in_tx-IsHeld id db db' res held h

-- Whatever holds, updates to PROCESSING, completions and failures follow one another, the clearing
-- account goes on holding exactly the amounts of the requests that are PENDING or PROCESSING, ids
-- stay unique and the keys that end a request in flight stay unused.
pub Steps-IsHeld : (db db' : Db) → Steps db db' → IsHeld db → IsHeld db'
Steps-IsHeld db db' stay held = held
Steps-IsHeld db db' (then_step {db₁} before step) held =
    Step-IsHeld step (Steps-IsHeld db db₁ before held)

-- Updating the row of one id leaves the row of another.
find-update_other :
    (id n : ℕ) (f : WithdrawalRequest → WithdrawalRequest) (rows : List WithdrawalRequest)
    → ((x : WithdrawalRequest) → (f x).id ≡ x.id)
    → n ≢ id
    → find_withdrawal id (update_rows (λ x. x.id == n) f rows) ≡ find_withdrawal id rows
unfolding find_withdrawal update_rows
find-update_other id n f [] keeps ne = refl
find-update_other id n f (x ∷ rows) keeps ne = elim (Bool-cases (x.id == n)) [
  | inl hit ↦
      let other : (x.id == id) ≡ false = ground arith in
      rw hit (rw (keeps x, other) (find-update_other id n f rows keeps ne))
  | inr miss ↦ rw (miss, find-update_other id n f rows keeps ne)
]

find_withdrawal-id :
    (id : ℕ) (rows : List WithdrawalRequest) {w : WithdrawalRequest}
    → find_withdrawal id rows ≡ some w
    → w.id ≡ id
unfolding find_withdrawal
find_withdrawal-id id rows found =
    let e = find_first-holds (λ x. x.id == id) rows found in ground arith

module _ (id : ℕ) (w : WithdrawalRequest) (landed : is_in_flight w.status ≡ false) where
  -- An update of a row in flight is of another row.
  update-final :
      (n : ℕ) (v : WithdrawalRequest) (f : WithdrawalRequest → WithdrawalRequest)
      (rows : List WithdrawalRequest)
      → ((x : WithdrawalRequest) → (f x).id ≡ x.id)
      → find_withdrawal n rows ≡ some v
      → is_in_flight v.status ≡ true
      → find_withdrawal id rows ≡ some w
      → find_withdrawal id (update_rows (λ x. x.id == v.id) f rows) ≡ some w
  update-final n v f rows keeps found_v flying found =
      let v_id = find_withdrawal-id n rows found_v in
      let differ : v.id ≢ id = λ e.
        let n_id : n ≡ id = sym v_id ∙ e in
        let same : v ≡ w = some-injective _ _ (sym found_v ∙ (rw n_id found)) in
        cc (ap (λ x. is_in_flight x.status) same, flying, landed) in
      rw (find-update_other id v.id f rows keeps differ) found

  ended-final :
      {post : WithdrawalRequest → Ledger → Result (Posted × Ledger)}
      {f : WithdrawalRequest → WithdrawalRequest} {last : WithdrawalStatus} (n : ℕ) (db db' : Db)
      {res : WithdrawalRequest}
      → ((x : WithdrawalRequest) → (f x).id ≡ x.id)
      → EndCases post f last n db db' res
      → find_withdrawal id db.withdrawals ≡ some w
      → find_withdrawal id db'.withdrawals ≡ some w
  ended-final n db db' keeps (v, found_v, inl (_, same, _)) found = rw same found
  ended-final {f} n db db' keeps (v, found_v, inr e) found =
      rw (ap (λ d. d.withdrawals) e.state)
        (update-final n v f db.withdrawals keeps found_v e.in_flight found)

  Step-final :
      {db db' : Db}
      → Step db db'
      → IsHeld db
      → find_withdrawal id db.withdrawals ≡ some w
      → find_withdrawal id db'.withdrawals ≡ some w
  unfolding find_withdrawal new_withdrawal
  Step-final {db} (hold_step params source amount now res db' h) held found =
      let taken = hold-ok params source amount now db db' res h in
      let low = All-find (λ x. x.id < db.next_id) _ db.withdrawals found held.below in
      let same = find_withdrawal-id id db.withdrawals found in
      let other : (db.next_id == id) ≡ false = ground arith in rw (taken.rows, other) found
  Step-final {db} (process_step ref v found_v flying) held found =
      update-final v.id v (processing_row ref) db.withdrawals (λ x. refl) found_v flying found
  Step-final {db} (complete_step n ref res db' h) held found =
      ended-final n db db' (λ x. refl) (complete_in_tx-cases n ref db h) found
  Step-final {db} (fail_step n res db' h) held found =
      ended-final n db db' (λ x. refl) (fail_in_tx-cases n db h) found

  -- COMPLETED and FAILED are final: from a database where the clearing account is exact, no sequence
  -- of steps changes the row of such a request.
  pub Steps-final :
      (db db' : Db)
      → Steps db db'
      → IsHeld db
      → find_withdrawal id db.withdrawals ≡ some w
      → find_withdrawal id db'.withdrawals ≡ some w
  Steps-final db db' stay held found = found
  Steps-final db db' (then_step {db₁} before step) held found =
      Step-final step (Steps-IsHeld db db₁ before held) (Steps-final db db₁ before held found)
