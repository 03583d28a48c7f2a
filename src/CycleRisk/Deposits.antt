-- ===== src/CycleRisk/Deposits.antt =====
-- CycleDepositsService (cycle-deposits.service.ts): the security deposit of a CYCLE group, held in
-- the member's escrow account, and the migration of what a legacy wallet had locked.
pub mod Secured
pub mod Completion
pub mod Migration
pub mod Escrow
pub mod Outcome
pub mod Frame
pub mod Join
use myturn_webportal.Prelude.{
  ℕ, ◌*◌, Bool, true, false, Option, none, some, List, [], ◌∷◌, if◌then◌else◌, leb, ◌==◌, ◌&&◌,
  find_first, filter_by, ok,
}
use myturn_webportal.Prelude.Int.{ℤ, pos, ◌-ℤ◌, leb_ℤ}
use myturn_webportal.Txn.{Tx, ◌>>=◌, ◌>>◌, return, modify}
use myturn_webportal.Ledger.Account.{
  system_external, member_deposit_escrow, member_wallet_available, group_pool,
}
use myturn_webportal.Ledger.Accounts.{get_or_create, get_balance}
use myturn_webportal.Ledger.Moves.{move_between}
use myturn_webportal.Ledger.Posting.Journal.{
  escrow_migration, deposit_hold, deposit_forfeit, deposit_release,
}
use myturn_webportal.Store.Rows.{
  DepositStatus, MemberCycleStanding, PayoutMode, Group, GroupMember, Payment, Wallet, deposit_at,
}
use myturn_webportal.Store.{Db, in_ledger, on_ledger, update_rows}
use myturn_webportal.Allocation.Settlement.{create_payment}

pub record JoinDepositResult : Type 0 where
  pub deposit_amount : ℕ
  pub deposit_status : DepositStatus

abbrev pub is_cycle : PayoutMode → Bool
is_cycle PayoutMode.daily = false
is_cycle PayoutMode.cycle = true

abbrev pub is_held : DepositStatus → Bool
is_held DepositStatus.not_required = false
is_held DepositStatus.held = true
is_held DepositStatus.released = false
is_held DepositStatus.forfeited = false

abbrev pub is_defaulted : MemberCycleStanding → Bool
is_defaulted MemberCycleStanding.active = false
is_defaulted MemberCycleStanding.late = false
is_defaulted MemberCycleStanding.defaulted = true

unfoldable pub deposit_required_amount : Group → ℕ
deposit_required_amount g =
    if is_cycle g.payout_mode then g.contribution_amount * g.days_per_cycle else 0

unfoldable pub find_wallet : ℕ → List Wallet → Option Wallet
find_wallet user = find_first λ w. w.user_id == user

abbrev pub unlocked : Wallet → Wallet
unlocked w = record w { locked_balance = pos 0 }

abbrev pub unlock : ℕ → Db → Db
unlock user db = record db { wallets = update_rows (λ w. w.user_id == user) unlocked db.wallets }

-- What is locked beyond what the escrow account holds comes from outside.
unfoldable pub migrate_gap : ℕ → ℤ → Tx Db (Unit {0})
migrate_gap user gap db =
    if leb_ℤ gap (pos 0)
    then ok (tt, unlock user db)
    else (in_ledger
            (move_between (escrow_migration user) system_external (member_deposit_escrow user) gap)
          >>= λ _. modify (unlock user))
        db

abbrev pub with_escrow : ℕ → Db → Db
with_escrow user = on_ledger (get_or_create (member_deposit_escrow user))

unfoldable pub migrate_wallet : ℕ → Option Wallet → Tx Db (Unit {0})
unfolding migrate_gap
migrate_wallet user none db = ok (tt, db)
migrate_wallet user (some w) db =
    if leb_ℤ w.locked_balance (pos 0)
    then ok (tt, db)
    else migrate_gap user
        (w.locked_balance -ℤ get_balance (member_deposit_escrow user) (with_escrow user db).ledger)
        (with_escrow user db)

unfoldable pub ensure_legacy_deposit_escrow_migrated_in_tx : ℕ → Tx Db (Unit {0})
unfolding migrate_wallet find_wallet
ensure_legacy_deposit_escrow_migrated_in_tx user db =
    migrate_wallet user (find_wallet user db.wallets) db

pub record JoinParams : Type 0 where
  pub user_id : ℕ
  pub member_id : ℕ
  pub group : Group
  -- `Date.now()`
  pub now : ℕ

abbrev pub no_deposit : JoinDepositResult
no_deposit = record { deposit_amount = 0; deposit_status = DepositStatus.not_required }

abbrev pub deposit_payment : JoinParams → ℕ → ℕ → Payment
deposit_payment params amount id = record {
  id = id;
  user_id = params.user_id;
  group_id = params.group.id;
  amount = amount;
  external_ref = deposit_at params.member_id params.now;
}

unfoldable pub hold_deposit : JoinParams → ℕ → ℕ → Tx Db JoinDepositResult
hold_deposit params amount payment_id = do
  create_payment (deposit_payment params amount payment_id)
  _ ← in_ledger (
      move_between (deposit_hold payment_id) system_external (member_deposit_escrow params.user_id)
        (pos amount))
  return (record { deposit_amount = amount; deposit_status = DepositStatus.held })

unfoldable pub apply_deposit_on_join : JoinParams → Tx Db JoinDepositResult
unfolding deposit_required_amount hold_deposit
apply_deposit_on_join params db =
    if leb (deposit_required_amount params.group) 0
    then ok (no_deposit, db)
    else (ensure_legacy_deposit_escrow_migrated_in_tx params.user_id >> λ after.
          hold_deposit params (deposit_required_amount params.group) after.next_id after)
        db

unfoldable pub find_member : ℕ → List GroupMember → Option GroupMember
find_member id = find_first λ m. m.id == id

abbrev pub with_deposit : DepositStatus → GroupMember → GroupMember
with_deposit status m = record m { deposit_status = status }

abbrev pub set_deposit : DepositStatus → ℕ → Db → Db
set_deposit status member db = record db {
  members = update_rows (λ m. m.id == member) (with_deposit status) db.members;
}

abbrev pub flag_user : ℕ → Db → Db
flag_user user db = record db {
  users = update_rows (λ u. u.id == user) (λ u. record u { cycle_default_flagged = true }) db.users;
}

pub record MemberParams : Type 0 where
  pub member_id : ℕ
  pub user_id : ℕ
  pub group_id : ℕ

unfoldable pub forfeit_amount : MemberParams → ℕ → Tx Db (Unit {0})
forfeit_amount params amount = do
  ensure_legacy_deposit_escrow_migrated_in_tx params.user_id
  _ ← in_ledger (
      move_between (deposit_forfeit params.member_id) (member_deposit_escrow params.user_id)
        (group_pool params.group_id) (pos amount))
  modify (set_deposit DepositStatus.forfeited params.member_id)
  modify (flag_user params.user_id)

-- The flag is set only where there is something to forfeit.
unfoldable pub forfeit_member : MemberParams → Option GroupMember → Tx Db (Unit {0})
unfolding forfeit_amount
forfeit_member params none db = ok (tt, db)
forfeit_member params (some m) db =
    if is_held m.deposit_status
    then (if leb m.deposit_amount 0
        then ok (tt, set_deposit DepositStatus.forfeited params.member_id db)
        else forfeit_amount params m.deposit_amount db)
    else ok (tt, db)

unfoldable pub forfeit_deposit_for_defaulted : MemberParams → Tx Db (Unit {0})
unfolding forfeit_member find_member
forfeit_deposit_for_defaulted params db =
    forfeit_member params (find_member params.member_id db.members) db

unfoldable pub release_deposit : GroupMember → Tx Db (Unit {0})
release_deposit m = do
  ensure_legacy_deposit_escrow_migrated_in_tx m.user_id
  _ ← in_ledger (
      move_between (deposit_release m.id) (member_deposit_escrow m.user_id)
        (member_wallet_available m.user_id) (pos m.deposit_amount))
  modify (set_deposit DepositStatus.released m.id)

-- Members who are DEFAULTED do not get theirs back.
unfoldable pub release_member : GroupMember → Tx Db (Unit {0})
unfolding release_deposit
release_member m db =
    if leb m.deposit_amount 0
    then ok (tt, db)
    else (if is_defaulted m.cycle_standing then ok (tt, db) else release_deposit m db)

unfoldable pub release_members : List GroupMember → Tx Db (Unit {0})
unfolding release_member
release_members [] = return tt
release_members (m ∷ ms) = release_member m >> release_members ms

abbrev pub held_members : ℕ → List GroupMember → List GroupMember
held_members group = filter_by λ m. m.group_id == group && is_held m.deposit_status

unfoldable pub release_all_held_deposits_for_group : ℕ → Tx Db (Unit {0})
unfolding release_members
release_all_held_deposits_for_group group db = release_members (held_members group db.members) db
