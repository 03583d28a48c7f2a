-- ===== src/CycleRisk/Deposits/Frame.antt =====
-- The release of deposits changes members, wallets and balances only.
use myturn_webportal.Prelude.{
  ℕ, Option, none, some, List, [], ◌∷◌, arith, leb, Bool-cases, inl, inr,
}
use myturn_webportal.Prelude.Int.{ℤ, pos, leb_ℤ, ◌-ℤ◌}
use myturn_webportal.Txn.{return, ◌>>=◌, modify}
use myturn_webportal.Ledger.Account.{
  system_external, member_deposit_escrow, member_wallet_available,
}
use myturn_webportal.Ledger.Accounts.{get_balance, get_or_create}
use myturn_webportal.Ledger.Moves.{move_between}
use myturn_webportal.Ledger.Posting.Journal.{escrow_migration, deposit_release}
use myturn_webportal.Store.Rows.{GroupMember, Wallet, DepositStatus}
use myturn_webportal.Store.Frames.{
  IsFramed, >>=-IsFramed, in_ledger-IsFramed, return-IsFramed, Keeps-rows, Keeps-opened,
  if-IsFramed,
}
use myturn_webportal.Ledger.Conserved.{get_or_create-Conserves, move_between-IsConserving}
use myturn_webportal.Store.{in_ledger}
use myturn_webportal.CycleRisk.Deposits.{
  find_wallet, unlock, with_escrow, migrate_gap, migrate_wallet, set_deposit, is_defaulted,
  ensure_legacy_deposit_escrow_migrated_in_tx, release_deposit, release_member, release_members,
  held_members, release_all_held_deposits_for_group,
}

unlock-IsFramed : (user : ℕ) → IsFramed (modify (unlock user))
unlock-IsFramed user db a db' h =
    Keeps-rows db db' (ground arith) (ground arith) (ground arith) (ground arith)

set_deposit-IsFramed : (s : DepositStatus) (i : ℕ) → IsFramed (modify (set_deposit s i))
set_deposit-IsFramed s i db a db' h =
    Keeps-rows db db' (ground arith) (ground arith) (ground arith) (ground arith)

migrate_gap-IsFramed : (user : ℕ) (gap : ℤ) → IsFramed (migrate_gap user gap)
unfolding migrate_gap
migrate_gap-IsFramed user gap db a db' h =
    if-IsFramed (leb_ℤ gap (pos 0)) (modify (unlock user))
      (in_ledger
          (move_between (escrow_migration user) system_external (member_deposit_escrow user) gap)
        >>= λ _. modify (unlock user))
      (unlock-IsFramed user)
      (>>=-IsFramed _ (λ _. modify (unlock user))
        (in_ledger-IsFramed _ (move_between-IsConserving _ _ _ _)) (λ _. unlock-IsFramed user))
      db a db' h

migrate_wallet-IsFramed : (user : ℕ) (o : Option Wallet) → IsFramed (migrate_wallet user o)
unfolding migrate_wallet
migrate_wallet-IsFramed user none db a db' h = return-IsFramed tt db a db' h
migrate_wallet-IsFramed user (some w) db a db' h =
    elim (Bool-cases (leb_ℤ w.locked_balance (pos 0))) [
      | inl nothing ↦ return-IsFramed tt db a db' (rw nothing at h)
      | inr locked ↦
          Keeps-opened (get_or_create (member_deposit_escrow user)) db db'
            (get_or_create-Conserves (member_deposit_escrow user) db.ledger)
            (migrate_gap-IsFramed user
              (w.locked_balance
                -ℤ get_balance (member_deposit_escrow user) (with_escrow user db).ledger)
              (with_escrow user db) a db' (rw locked at h))
    ]

pub ensure_migrated-IsFramed :
    (user : ℕ) → IsFramed (ensure_legacy_deposit_escrow_migrated_in_tx user)
unfolding ensure_legacy_deposit_escrow_migrated_in_tx
ensure_migrated-IsFramed user db a db' h =
    migrate_wallet-IsFramed user (find_wallet user db.wallets) db a db' h

release_deposit-IsFramed : (m : GroupMember) → IsFramed (release_deposit m)
unfolding release_deposit
release_deposit-IsFramed m =
    >>=-IsFramed (ensure_legacy_deposit_escrow_migrated_in_tx m.user_id) _
      (ensure_migrated-IsFramed m.user_id)
      (λ _.
        >>=-IsFramed
          (in_ledger (
            move_between (deposit_release m.id) (member_deposit_escrow m.user_id)
              (member_wallet_available m.user_id) (pos m.deposit_amount)))
          (λ _. modify (set_deposit DepositStatus.released m.id))
          (in_ledger-IsFramed _ (move_between-IsConserving _ _ _ _))
          (λ _. set_deposit-IsFramed DepositStatus.released m.id))

release_member-IsFramed : (m : GroupMember) → IsFramed (release_member m)
unfolding release_member
release_member-IsFramed m db a db' h = elim (Bool-cases (leb m.deposit_amount 0)) [
  | inl nothing ↦ return-IsFramed tt db a db' (rw nothing at h)
  | inr above ↦
      if-IsFramed (is_defaulted m.cycle_standing) (return tt) (release_deposit m)
        (return-IsFramed tt) (release_deposit-IsFramed m) db a db' (rw above at h)
]

release_members-IsFramed : (ms : List GroupMember) → IsFramed (release_members ms)
unfolding release_members
release_members-IsFramed [] = return-IsFramed tt
release_members-IsFramed (m ∷ ms) =
    >>=-IsFramed (release_member m) (λ _. release_members ms) (release_member-IsFramed m)
      (λ _. release_members-IsFramed ms)

pub release_deposits-IsFramed : (group : ℕ) → IsFramed (release_all_held_deposits_for_group group)
unfolding release_all_held_deposits_for_group
release_deposits-IsFramed group db a db' h =
    release_members-IsFramed (held_members group db.members) db a db' h
