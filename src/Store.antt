-- ===== src/Store.antt =====
-- The tables of services/backend-api/prisma/schema.prisma that the modelled services read and write,
-- one row type each with the columns that they use. Ids are naturals, since they are only compared;
-- amounts (`Decimal(18, 2)`) are in minor units. Notifications, audit rows and log lines are written
-- by the services and read by none of them, and are left out, as are time stamps that nothing
-- compares.
pub mod Rows
pub mod Lemmas
pub mod Filter
pub mod Update
pub mod Frames
use myturn_webportal.Prelude.{
  ℕ, suc, ◌+◌, Bool, true, false, Option, none, some, List, [], ◌∷◌, if◌then◌else◌, ◌==◌,
  find_first, Result, ok, err,
}
use myturn_webportal.Txn.{Tx}
use myturn_webportal.Ledger.Posting.{Ledger, Posted, post_transfer_in_tx, post_journal_in_tx}
use myturn_webportal.Ledger.Accounts.{get_or_create}
use Rows.{
  Reserve, Contribution, DefaultCoverage, Payment, Group, GroupMember, Payout, WithdrawalRequest,
  Wallet, User, AdminEarning,
}

pub record Db : Type 0 where
  pub ledger : Ledger
  pub reserves : List Reserve
  pub coverages : List DefaultCoverage
  pub contributions : List Contribution
  pub payments : List Payment
  pub groups : List Group
  pub members : List GroupMember
  pub payouts : List Payout
  pub withdrawals : List WithdrawalRequest
  pub wallets : List Wallet
  pub users : List User
  pub earnings : List AdminEarning
  -- the next id that the database gives out
  pub next_id : ℕ

-- `updateMany`, and `update` by a unique column: every row that the test picks is changed.
unfoldable pub update_rows {ℓ} : {A : Type ℓ} → (A → Bool) → (A → A) → List A → List A
update_rows p f [] = []
update_rows p f (x ∷ xs) = if p x then f x ∷ update_rows p f xs else x ∷ update_rows p f xs

-- An operation of the ledger, inside a transaction.
abbrev pub in_ledger : {A : Type 0} → (Ledger → Result (A × Ledger)) → Tx Db A
in_ledger f db = elim (f db.ledger) [ ok (a, l) ↦ ok (a, record db { ledger = l }) | err e ↦ err e ]

abbrev pub on_ledger : (Ledger → Ledger) → Db → Db
on_ledger f db = record db { ledger = f db.ledger }
