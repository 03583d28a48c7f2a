-- ===== src/Reserve/Completion/Final.antt =====
-- The final release of a reserve, when its group is completed.
use myturn_webportal.Prelude.{
  ◌≡◌, refl, sym, ◌∙◌, inr, false, none, some, arith, ◌==◌, ok, ◌≤◌, leb,
}
use myturn_webportal.Prelude.Int.{pos}
use myturn_webportal.Txn.{>>=-ok}
use myturn_webportal.Ledger.Account.{key_eq, member_wallet_reserved, member_wallet_available}
use myturn_webportal.Ledger.Accounts.{get_balance, get_balance-IsSolvent}
use myturn_webportal.Ledger.Moves.{opened, move_between_succeeds}
use myturn_webportal.Ledger.Posting.Journal.{final_release}
use myturn_webportal.Ledger.Posting.Solvency.{IsSolvent}
use myturn_webportal.Ledger.Posting.Transfer.{transferred}
use myturn_webportal.Ledger.Posting.{Ledger, Posted, find_transaction}
use myturn_webportal.Store.Rows.{Reserve}
use myturn_webportal.Store.Lemmas.{in_ledger-ok, find_first-update}
use myturn_webportal.Store.{update_rows, Db, in_ledger}
use myturn_webportal.Reserve.Backing.{
  IsAccounted, IsConsistent, drain-IsConsistent, remaining_le_reserved,
}
use myturn_webportal.Reserve.Completion.{
  FinalRelease, final_released, fully_released, find_reserve, final_transfer, finish_final,
  mark_reserve_fully_released_in_tx, release_final_reserve_on_group_completed_in_tx,
}

abbrev posted_for : Reserve → Db → Posted × Ledger
posted_for r db =
    transferred (final_release r.id) (member_wallet_reserved r.user_id)
      (member_wallet_available r.user_id) (pos r.remaining_reserve_amount)
      (get_balance (member_wallet_reserved r.user_id) db.ledger)
      (get_balance (member_wallet_available r.user_id) db.ledger)
      (opened (member_wallet_reserved r.user_id) (member_wallet_available r.user_id) db.ledger)

-- The database after the final release of a reserve that has something remaining.
abbrev pub closed : Reserve → Db → Db
closed r db = record db {
  ledger = (posted_for r db).1;
  reserves =
      update_rows (λ x. x.id == r.id) (fully_released r r.remaining_reserve_amount) db.reserves;
}

module _ (r : Reserve) (db : Db) (current : find_reserve r.id db.reserves ≡ some r)
    (some_left : 1 ≤ r.remaining_reserve_amount)
    (unused : find_transaction (final_release r.id) db.ledger.transactions ≡ none)
    (consistent : IsConsistent db) (solvent : IsSolvent db.ledger.accounts) where
  final_transfer-goes_through : final_transfer r db.ledger ≡ ok (posted_for r db)
  unfolding find_reserve
  final_transfer-goes_through =
      move_between_succeeds (final_release r.id) (member_wallet_reserved r.user_id)
        (member_wallet_available r.user_id) (pos r.remaining_reserve_amount) db.ledger unused
        (ground arith) (omega arith)
        (inr (
          rw (consistent.backed r.user_id)
            (omega (arith, remaining_le_reserved r.user_id _ db.reserves r current refl))))
        (inr (get_balance-IsSolvent (member_wallet_available r.user_id) db.ledger solvent refl))

  pub release_final-succeeds :
      (release_final_reserve_on_group_completed_in_tx r db
        ≡ ok (final_released r.id r.remaining_reserve_amount, closed r db))
      × (find_reserve r.id (closed r db).reserves
          ≡ some (fully_released r r.remaining_reserve_amount r))
  unfolding release_final_reserve_on_group_completed_in_tx finish_final
      mark_reserve_fully_released_in_tx find_reserve
  release_final-succeeds = (
    run,
    find_first-update (λ x. x.id) (fully_released r r.remaining_reserve_amount) r.id db.reserves r
        (λ x. refl) current,
  )
    where
      run :
          release_final_reserve_on_group_completed_in_tx r db
          ≡ ok (final_released r.id r.remaining_reserve_amount, closed r db)
      run =
          let not_empty : leb r.remaining_reserve_amount 0 ≡ false = ground arith in
          rw not_empty (
            >>=-ok (in_ledger (final_transfer r)) (λ t. finish_final r t.duplicate) db
              (in_ledger-ok (final_transfer r) db final_transfer-goes_through))

  -- A final release that goes through keeps the reserves consistent (ids unique, every reserve
  -- accounted for to the last unit, and every reserved wallet holding what remains of its owner's
  -- reserves).
  release_final-IsConsistent :
      {res : FinalRelease} {db' : Db}
      → release_final_reserve_on_group_completed_in_tx r db ≡ ok (res, db')
      → IsConsistent db'
  unfolding find_reserve
  release_final-IsConsistent {res} {db'} h =
      let same = sym release_final-succeeds.0 ∙ h in
      let e : closed r db ≡ db' = ground arith in
      rw (← e) (
        drain-IsConsistent (final_release r.id) r.user_id (member_wallet_available r.user_id)
          r.remaining_reserve_amount db (closed r db) final_transfer-goes_through consistent _
          (fully_released r r.remaining_reserve_amount) r refl (λ u. refl) current refl
          (λ x. (refl, refl)) (omega arith) account refl)
    where
      account : IsAccounted r → IsAccounted (fully_released r r.remaining_reserve_amount r)
      account a = ground arith
