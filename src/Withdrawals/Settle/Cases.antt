-- ===== src/Withdrawals/Settle/Cases.antt =====
-- The ways in which the transactions that end a withdrawal return.
use myturn_webportal.Prelude.{
  ℕ, ◌≡◌, refl, ◌⊎◌, inl, inr, true, Option, none, some, arith, ok, Result, withdrawal_not_found,
}
use myturn_webportal.Txn
use myturn_webportal.Txn.{Tx, >>=-eq-ok}
use myturn_webportal.Ledger.Posting.{Ledger, Posted}
use myturn_webportal.Store.Rows.{WithdrawalRequest, WithdrawalStatus}
use myturn_webportal.Store.Lemmas.{in_ledger-eq-ok}
use myturn_webportal.Store.{Db, in_ledger}
use myturn_webportal.Wallet.{is_in_flight}
use myturn_webportal.Withdrawals.Settle.{
  find_withdrawal, set_withdrawal, completed_row, failed_row, pay_out, give_back, complete_row,
  complete_current, complete_in_tx, fail_row, fail_current, fail_in_tx,
}

-- The row was in flight, its money was posted, and the row is in its last status.
pub record Ended (post : Ledger → Result (Posted × Ledger))
    (f : WithdrawalRequest → WithdrawalRequest) (w : WithdrawalRequest) (db db' : Db)
    (res : WithdrawalRequest) : Type 0 where
  pub in_flight : is_in_flight w.status ≡ true
  pub posted : Posted
  pub posting : post db.ledger ≡ ok (posted, db'.ledger)
  pub state : db' ≡ set_withdrawal f w.id (record db { ledger = db'.ledger })
  pub result : res ≡ f w

abbrev pub EndCases :
    (WithdrawalRequest → Ledger → Result (Posted × Ledger))
    → (WithdrawalRequest → WithdrawalRequest)
    → WithdrawalStatus
    → ℕ
    → Db
    → Db
    → WithdrawalRequest
    → Type 0
EndCases post f last id db db' res =
    (w : WithdrawalRequest) × (find_withdrawal id db.withdrawals ≡ some w)
    × (((w.status ≡ last) × (db' ≡ db) × (res ≡ w)) ⊎ Ended (post w) f w db db' res)

or_throw-ok :
    (o : Option WithdrawalRequest) (db : Db) {w : WithdrawalRequest} {db' : Db}
    → Txn.or_throw o withdrawal_not_found db ≡ ok (w, db')
    → (o ≡ some w) × (db ≡ db')
or_throw-ok none db h = cc h
or_throw-ok (some w) db h = (ground arith, ground arith)

complete_row-ok :
    (ref : ℕ) (w : WithdrawalRequest) (db : Db) {res : WithdrawalRequest} {db' : Db}
    → is_in_flight w.status ≡ true
    → complete_row ref w db ≡ ok (res, db')
    → Ended (pay_out w) (completed_row ref) w db db' res
unfolding complete_row
complete_row-ok ref w db {res} {db'} flying h =
    let (p, db₁, moved, h₁) =
      >>=-eq-ok (in_ledger (pay_out w))
        (λ _ db₂. ok (completed_row ref w, set_withdrawal (completed_row ref) w.id db₂)) db h in
    let (posting, same) = in_ledger-eq-ok (pay_out w) db moved in finish p db₁ posting same h₁
  where
    finish :
        (p : Posted) (db₁ : Db)
        → pay_out w db.ledger ≡ ok (p, db₁.ledger)
        → db₁ ≡ record db { ledger = db₁.ledger }
        → ◌≡◌ {A = Result (WithdrawalRequest × Db)}
            (ok (completed_row ref w, set_withdrawal (completed_row ref) w.id db₁))
            (ok (res, db'))
        → Ended (pay_out w) (completed_row ref) w db db' res
    finish p db₁ posting same h₁ = record {
      in_flight = flying;
      posted = p;
      posting = cc;
      state = ground arith;
      result = ground arith;
    }

pub complete_in_tx-cases :
    (id ref : ℕ) (db : Db) {res : WithdrawalRequest} {db' : Db}
    → complete_in_tx id ref db ≡ ok (res, db')
    → EndCases pay_out (completed_row ref) WithdrawalStatus.completed id db db' res
unfolding complete_in_tx complete_current
complete_in_tx-cases id ref db {res} {db'} h =
    let (w, db₁, found, h₁) =
      >>=-eq-ok (Txn.or_throw (find_withdrawal id db.withdrawals) withdrawal_not_found)
        (λ w. complete_current ref w w.status) db h in
    let (found_w, same) = or_throw-ok (find_withdrawal id db.withdrawals) db found in
    (w, found_w, by_status w w.status refl (rw (← same) at h₁))
  where
    by_status :
        (w : WithdrawalRequest) (s : WithdrawalStatus)
        → w.status ≡ s
        → complete_current ref w s db ≡ ok (res, db')
        → ((w.status ≡ WithdrawalStatus.completed) × (db' ≡ db) × (res ≡ w))
          ⊎ Ended (pay_out w) (completed_row ref) w db db' res
    by_status w WithdrawalStatus.completed e h₁ = inl (e, ground arith, ground arith)
    by_status w WithdrawalStatus.failed e h₁ = cc h₁
    by_status w WithdrawalStatus.pending e h₁ = inr (complete_row-ok ref w db (rw e refl) h₁)
    by_status w WithdrawalStatus.processing e h₁ = inr (complete_row-ok ref w db (rw e refl) h₁)

fail_row-ok :
    (w : WithdrawalRequest) (db : Db) {res : WithdrawalRequest} {db' : Db}
    → is_in_flight w.status ≡ true
    → fail_row w db ≡ ok (res, db')
    → Ended (give_back w) failed_row w db db' res
unfolding fail_row
fail_row-ok w db {res} {db'} flying h =
    let (p, db₁, moved, h₁) =
      >>=-eq-ok (in_ledger (give_back w))
        (λ _ db₂. ok (failed_row w, set_withdrawal failed_row w.id db₂)) db h in
    let (posting, same) = in_ledger-eq-ok (give_back w) db moved in finish p db₁ posting same h₁
  where
    finish :
        (p : Posted) (db₁ : Db)
        → give_back w db.ledger ≡ ok (p, db₁.ledger)
        → db₁ ≡ record db { ledger = db₁.ledger }
        → ◌≡◌ {A = Result (WithdrawalRequest × Db)}
            (ok (failed_row w, set_withdrawal failed_row w.id db₁))
            (ok (res, db'))
        → Ended (give_back w) failed_row w db db' res
    finish p db₁ posting same h₁ = record {
      in_flight = flying;
      posted = p;
      posting = cc;
      state = ground arith;
      result = ground arith;
    }

pub fail_in_tx-cases :
    (id : ℕ) (db : Db) {res : WithdrawalRequest} {db' : Db}
    → fail_in_tx id db ≡ ok (res, db')
    → EndCases give_back failed_row WithdrawalStatus.failed id db db' res
unfolding fail_in_tx fail_current
fail_in_tx-cases id db {res} {db'} h =
    let (w, db₁, found, h₁) =
      >>=-eq-ok (Txn.or_throw (find_withdrawal id db.withdrawals) withdrawal_not_found)
        (λ w. fail_current w w.status) db h in
    let (found_w, same) = or_throw-ok (find_withdrawal id db.withdrawals) db found in
    (w, found_w, by_status w w.status refl (rw (← same) at h₁))
  where
    by_status :
        (w : WithdrawalRequest) (s : WithdrawalStatus)
        → w.status ≡ s
        → fail_current w s db ≡ ok (res, db')
        → ((w.status ≡ WithdrawalStatus.failed) × (db' ≡ db) × (res ≡ w))
          ⊎ Ended (give_back w) failed_row w db db' res
    by_status w WithdrawalStatus.failed e h₁ = inl (e, ground arith, ground arith)
    by_status w WithdrawalStatus.completed e h₁ = cc h₁
    by_status w WithdrawalStatus.pending e h₁ = inr (fail_row-ok w db (rw e refl) h₁)
    by_status w WithdrawalStatus.processing e h₁ = inr (fail_row-ok w db (rw e refl) h₁)
