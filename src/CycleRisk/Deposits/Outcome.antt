-- ===== src/CycleRisk/Deposits/Outcome.antt =====
-- What becomes of a held deposit: it is forfeited to the group's pool, or returned.
use myturn_webportal.Prelude.{
  ℕ, ◌≤◌, ◌≡◌, ◌≢◌, refl, ap, ◌∙◌, true, false, some, arith, ◌==◌, Result, ok, leb,
}
use myturn_webportal.Prelude.Int.{ℤ, pos, ◌+ℤ◌, int_laws}
use myturn_webportal.Txn.{Tx, >>=-ok, modify, ◌>>◌, ◌>>=◌}
use myturn_webportal.Ledger.Account.{
  AccountKey, key_beq, key_beq_iff, is_external, system_external, member_deposit_escrow,
  member_wallet_available, group_pool,
}
use myturn_webportal.Ledger.Accounts.{get_balance}
use myturn_webportal.Ledger.Moves.{move_between}
use myturn_webportal.Ledger.Posting.Journal.{
  IdempotencyKey, escrow_migration, deposit_forfeit, deposit_release,
}
use myturn_webportal.Ledger.Posting.{Ledger, Posted}
use myturn_webportal.Store.Rows.{GroupMember, DepositStatus}
use myturn_webportal.Store.Lemmas.{
  All-find, in_ledger-ok, find_first-update, find_first-update_other,
}
use myturn_webportal.Store.{Db, in_ledger, update_rows}
use myturn_webportal.CycleRisk.Deposits.{
  is_held, is_defaulted, find_member, with_deposit, set_deposit, flag_user, forfeit_amount,
  forfeit_deposit_for_defaulted, release_deposit, release_member,
  ensure_legacy_deposit_escrow_migrated_in_tx,
}
use myturn_webportal.CycleRisk.Deposits.Migration.{migrates}
use myturn_webportal.CycleRisk.Deposits.Secured.{IsUnused}
use myturn_webportal.CycleRisk.Deposits.Escrow.{
  IsOpen, IsEscrowed, goes_through, paid_balance, paid-IsEscrowed,
}

gained : (b : ℤ) (amount : ℕ) → b +ℤ (pos 0 +ℤ (pos amount +ℤ pos 0)) ≡ b +ℤ pos amount
gained b amount = omega int_laws

-- The writes of a payment, one after the other.
migrate_then :
    (user : ℕ) (f : Ledger → Result (Posted × Ledger)) (k : Tx Db (Unit {0})) (db mid : Db)
    {p : Posted} {after : Ledger}
    → ensure_legacy_deposit_escrow_migrated_in_tx user db ≡ ok (tt, mid)
    → f mid.ledger ≡ ok (p, after)
    → (ensure_legacy_deposit_escrow_migrated_in_tx user >> (in_ledger f >>= λ _. k)) db
      ≡ k (record mid { ledger = after })
migrate_then user f k db mid run moved =
    >>=-ok (ensure_legacy_deposit_escrow_migrated_in_tx user) (λ _. in_ledger f >>= λ _. k) db run
    ∙ >>=-ok (in_ledger f) (λ _. k) mid (in_ledger-ok f mid moved)

flag_user-IsEscrowed : (user : ℕ) (db : Db) → IsEscrowed db → IsEscrowed (flag_user user db)
flag_user-IsEscrowed user db e = record {
  unique_ids = e.unique_ids;
  deposits = e.deposits;
  migratable = e.migratable;
  are_open = e.are_open;
  solvent = e.solvent;
}

-- A payment of a held deposit that has gone through, with the databases on the way.
record Ended (db : Db) (m : GroupMember) (key : IdempotencyKey) (to : AccountKey)
    (status : DepositStatus) : Type 0 where
  mid : Db
  posted : Posted
  after : Ledger
  migrated : ensure_legacy_deposit_escrow_migrated_in_tx m.user_id db ≡ ok (tt, mid)
  moved :
      move_between key (member_deposit_escrow m.user_id) to (pos m.deposit_amount) mid.ledger
      ≡ ok (posted, after)
  escrowed : IsEscrowed (set_deposit status m.id (record mid { ledger = after }))
  paid : get_balance to after ≡ get_balance to db.ledger +ℤ pos m.deposit_amount
  own :
      find_member m.id (update_rows (λ x. x.id == m.id) (with_deposit status) mid.members)
      ≡ some (with_deposit status m)
  same_members : mid.members ≡ db.members
  same_payouts : mid.payouts ≡ db.payouts
  others :
      (i : ℕ)
      → m.id ≢ i
      → find_member i (update_rows (λ x. x.id == m.id) (with_deposit status) mid.members)
        ≡ find_member i db.members

module _ (db : Db) (m : GroupMember) (escrowed : IsEscrowed db)
    (found : find_member m.id db.members ≡ some m) (held : is_held m.deposit_status ≡ true)
    (positive : 1 ≤ m.deposit_amount) where
  own-IsOpen : IsOpen db.ledger m
  unfolding find_member
  own-IsOpen = All-find (IsOpen db.ledger) _ db.members found escrowed.are_open

  ends_deposit :
      (key : IdempotencyKey) (to : AccountKey) (status : DepositStatus)
      → IsUnused key db.ledger
      → is_held status ≡ false
      → is_external to ≡ false
      → ((u : ℕ) → key_beq to (member_deposit_escrow u) ≡ false)
      → key_beq system_external to ≡ false
      → key_beq (member_deposit_escrow m.user_id) to ≡ false
      → ((u : ℕ) → escrow_migration u ≢ key)
      → ((i : ℕ) → i ≢ m.id → key ≢ deposit_forfeit i)
      → ((i : ℕ) → i ≢ m.id → key ≢ deposit_release i)
      → Ended db m key to status
  unfolding find_member
  ends_deposit key to status unused ends internal elsewhere not_external not_escrow no_migration
        other_forfeit other_release =
      let (mid, run, mig) =
        migrates m.user_id db escrowed.solvent (escrowed.migratable m.user_id) in
      let (p, after, pays) =
        goes_through db mid m key to status escrowed found held positive mig unused ends internal
          elsewhere no_migration other_forfeit other_release in
      let mine : key_beq to to ≡ true = (key_beq_iff to to).1 refl in
      let same : mid.members ≡ db.members = ap (λ (d : Db). d.members) mig.rest in
      record {
        mid = mid;
        posted = p;
        after = after;
        migrated = run;
        moved = pays;
        escrowed =
            paid-IsEscrowed db mid m key to status escrowed found held positive mig unused ends
              internal elsewhere no_migration other_forfeit other_release p after pays;
        paid =
            (rw (not_escrow, mine) at
              (paid_balance db mid m key to status escrowed found held positive mig unused ends
                internal elsewhere no_migration other_forfeit other_release p after pays to))
            ∙ gained (get_balance to mid.ledger) m.deposit_amount
            ∙ ap (λ b. b +ℤ pos m.deposit_amount) (mig.balances to not_external not_escrow);
        own = rw same (
            find_first-update (λ x. x.id) (with_deposit status) m.id db.members m (λ x. refl)
              found);
        same_members = same;
        same_payouts = ap (λ (d : Db). d.payouts) mig.rest;
        others = λ i ne. rw same (
            find_first-update_other (λ x. x.id) (with_deposit status) m.id i db.members (λ x. refl)
              ne);
      }

  pub forfeit_in_full :
      (group_id : ℕ)
      → (db' : Db) × (forfeit_deposit_for_defaulted
            (record { member_id = m.id; user_id = m.user_id; group_id = group_id })
            db
          ≡ ok (tt, db'))
        × IsEscrowed db'
        × (get_balance (group_pool group_id) db'.ledger
            ≡ get_balance (group_pool group_id) db.ledger +ℤ pos m.deposit_amount)
        × (find_member m.id db'.members ≡ some (with_deposit DepositStatus.forfeited m))
        × (db'.members
            ≡ update_rows (λ x. x.id == m.id) (with_deposit DepositStatus.forfeited) db.members)
        × (db'.payouts ≡ db.payouts)
  unfolding forfeit_deposit_for_defaulted forfeit_amount
  forfeit_in_full group_id =
      let e =
        ends_deposit (deposit_forfeit m.id) (group_pool group_id) DepositStatus.forfeited
          (own-IsOpen.can_forfeit held) refl refl (λ u. refl) refl refl (λ u. ground arith)
          (λ i ne. ground arith) (λ i ne. ground arith) in
      let above : leb m.deposit_amount 0 ≡ false = ground arith in
      (
        flag_user m.user_id
            (set_deposit DepositStatus.forfeited m.id (record e.mid { ledger = e.after })),
        rw (found, held, above)
            (migrate_then m.user_id
              (move_between (deposit_forfeit m.id) (member_deposit_escrow m.user_id)
                (group_pool group_id) (pos m.deposit_amount))
              (modify (set_deposit DepositStatus.forfeited m.id) >> modify (flag_user m.user_id)) db
              e.mid e.migrated e.moved),
        flag_user-IsEscrowed m.user_id _ e.escrowed,
        e.paid,
        e.own,
        ap (update_rows (λ x. x.id == m.id) (with_deposit DepositStatus.forfeited)) e.same_members,
        e.same_payouts,
      )

  pub forfeit-pays_pool :
      (group_id : ℕ)
      → (db' : Db) × (forfeit_deposit_for_defaulted
            (record { member_id = m.id; user_id = m.user_id; group_id = group_id })
            db
          ≡ ok (tt, db'))
        × IsEscrowed db'
        × (get_balance (group_pool group_id) db'.ledger
            ≡ get_balance (group_pool group_id) db.ledger +ℤ pos m.deposit_amount)
        × (find_member m.id db'.members ≡ some (with_deposit DepositStatus.forfeited m))
        × (db'.members
            ≡ update_rows (λ x. x.id == m.id) (with_deposit DepositStatus.forfeited) db.members)
  forfeit-pays_pool group_id =
      let (db', run, escrow, pool, own, rows, _) = forfeit_in_full group_id in
      (db', run, escrow, pool, own, rows)

  pub release-returns :
      is_defaulted m.cycle_standing ≡ false
      → (db' : Db) × (release_member m db ≡ ok (tt, db'))
        × IsEscrowed db'
        × (find_member m.id db'.members ≡ some (with_deposit DepositStatus.released m))
        × ((i : ℕ) → m.id ≢ i → find_member i db'.members ≡ find_member i db.members)
  unfolding release_member release_deposit
  release-returns standing =
      let e =
        ends_deposit (deposit_release m.id) (member_wallet_available m.user_id)
          DepositStatus.released (own-IsOpen.can_release held) refl refl (λ u. refl) refl refl
          (λ u. ground arith) (λ i ne. ground arith) (λ i ne. ground arith) in
      let above : leb m.deposit_amount 0 ≡ false = ground arith in
      (
        set_deposit DepositStatus.released m.id (record e.mid { ledger = e.after }),
        rw (above, standing)
            (migrate_then m.user_id
              (move_between (deposit_release m.id) (member_deposit_escrow m.user_id)
                (member_wallet_available m.user_id) (pos m.deposit_amount))
              (modify (set_deposit DepositStatus.released m.id)) db e.mid e.migrated e.moved),
        e.escrowed,
        e.own,
        e.others,
      )
