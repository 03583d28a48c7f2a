-- ===== src/CycleRisk/Deposits/Secured.antt =====
-- What a user has secured: the escrow account once a legacy wallet is migrated.
use myturn_webportal.Prelude.{
  ℕ, ◌≡◌, ◌≢◌, refl, inl, inr, false, Option, none, some, if◌then◌else◌, Bool-cases,
}
use myturn_webportal.Prelude.Int.{ℤ, pos, ◌-ℤ◌, leb_ℤ}
use myturn_webportal.Ledger.Account.{AccountKey, key_beq, system_external, member_deposit_escrow}
use myturn_webportal.Ledger.Accounts.{get_balance}
use myturn_webportal.Ledger.Posting.Journal.{IdempotencyKey, escrow_migration}
use myturn_webportal.Ledger.Posting.Solvency.{IsSolvent}
use myturn_webportal.Ledger.Posting.{Ledger, find_transaction}
use myturn_webportal.Store.Rows.{Wallet}
use myturn_webportal.Store.{Db}
use myturn_webportal.CycleRisk.Deposits.{find_wallet}

-- What the escrow account of a user holds once the wallet is migrated: the larger of the two.
abbrev pub due : Option Wallet → ℤ → ℤ
due none escrow = escrow
due (some w) escrow =
    if leb_ℤ w.locked_balance (pos 0)
    then escrow
    else (if leb_ℤ (w.locked_balance -ℤ escrow) (pos 0) then escrow else w.locked_balance)

abbrev pub secured : ℕ → Db → ℤ
secured user db =
    due (find_wallet user db.wallets) (get_balance (member_deposit_escrow user) db.ledger)

abbrev pub IsUnused : IdempotencyKey → Ledger → Type 0
IsUnused key l = find_transaction key l.transactions ≡ none

abbrev pub HasLocked : Option Wallet → Type 0
HasLocked none = ⊥
HasLocked (some w) = leb_ℤ w.locked_balance (pos 0) ≡ false

-- While something is locked, the migration has not been posted.
abbrev pub IsMigratable : ℕ → Db → Type 0
IsMigratable user db =
    HasLocked (find_wallet user db.wallets) → IsUnused (escrow_migration user) db.ledger

pub record Migrated (user : ℕ) (db db' : Db) : Type 0 where
  pub escrow : get_balance (member_deposit_escrow user) db'.ledger ≡ secured user db
  pub settled : ¬ HasLocked (find_wallet user db'.wallets)
  pub balances :
      (k : AccountKey)
      → key_beq system_external k ≡ false
      → key_beq (member_deposit_escrow user) k ≡ false
      → get_balance k db'.ledger ≡ get_balance k db.ledger
  pub wallets : (u : ℕ) → user ≢ u → find_wallet u db'.wallets ≡ find_wallet u db.wallets
  pub keys :
      (key : IdempotencyKey)
      → escrow_migration user ≢ key
      → find_transaction key db'.ledger.transactions ≡ find_transaction key db.ledger.transactions
  pub solvent : IsSolvent db'.ledger.accounts
  pub rest : db' ≡ record db { ledger = db'.ledger; wallets = db'.wallets }

pub due-settled : (o : Option Wallet) (escrow : ℤ) → ¬ HasLocked o → due o escrow ≡ escrow
due-settled none escrow h = refl
due-settled (some w) escrow h = elim (Bool-cases (leb_ℤ w.locked_balance (pos 0))) [
  | inl nothing ↦ rw nothing
  | inr locked ↦ absurd (h locked)
]
