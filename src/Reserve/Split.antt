-- ===== src/Reserve/Split.antt =====
-- computeSplit, ensureLegacyWalletMigratedInTx and createReserveOnPayoutInTx.
pub mod Parts
pub mod Migration
use myturn_webportal.Prelude.{
  ℕ, suc, ◌+◌, ◌-◌, Bool, true, false, Option, none, some, List, [], ◌∷◌, if◌then◌else◌, ◌==◌, leb,
  ◌||◌, ok, err, Result,
}
use myturn_webportal.Prelude
use myturn_webportal.Prelude.Int.{ℤ, pos, ◌-ℤ◌, leb_ℤ, ltb_ℤ}
use myturn_webportal.Txn.{Tx, ◌>>=◌, ◌>>◌, return, modify, gets, lift}
use myturn_webportal.Shared.ReserveRules.{
  compute_reserve_bps, compute_reserve_amount_minor, compute_release_per_unit_minor,
  post_payout_contribution_units,
}
use myturn_webportal.Ledger.Account.{member_wallet, member_wallet_available, member_wallet_reserved}
use myturn_webportal.Ledger.Accounts.{get_or_create, get_balance}
use myturn_webportal.Ledger.Posting.Journal.{wallet_migration}
use myturn_webportal.Ledger.Posting.{Ledger, post_transfer_in_tx}
use myturn_webportal.Store.Rows.{Reserve, ReserveStatus}
use myturn_webportal.Store.{Db, in_ledger, on_ledger}

-- The settings after parsing; a rate that is not set or does not parse has its default (3000, 0).
pub record ReserveConfig : Type 0 where
  pub enabled : Bool
  pub max_bps : ℤ
  pub min_bps : ℤ

pub record ReserveSplitResult : Type 0 where
  pub reserve_bps : ℕ
  pub reserve_minor : ℕ
  pub available_minor : ℤ
  pub units : ℕ

split_enabled : ReserveConfig → ℕ → ℕ → ℕ → ℕ → Result ReserveSplitResult
split_enabled config net position total units =
    Prelude.◌>>=◌ (compute_reserve_bps position total config.max_bps config.min_bps) λ bps.
      Prelude.◌>>=◌ (compute_reserve_amount_minor (pos net) bps) λ reserve. ok (record {
        reserve_bps = bps;
        reserve_minor = reserve;
        available_minor = pos net -ℤ pos reserve;
        units = units;
      })

unfoldable pub compute_split : ReserveConfig → ℕ → ℕ → ℕ → ℕ → Result ReserveSplitResult
unfolding split_enabled
compute_split config net position total units_per_cycle =
    Prelude.◌>>=◌ (post_payout_contribution_units position total units_per_cycle) λ units.
      if config.enabled
      then split_enabled config net position total units
      else ok
          (record { reserve_bps = 0; reserve_minor = 0; available_minor = pos net; units = units })

-- The legacy wallet is emptied into an empty available wallet; else nothing is posted.
migrate : ℕ → ℤ → ℤ → Ledger → Result (Unit {0} × Ledger)
migrate user legacy available l =
    if leb_ℤ legacy (pos 0) || ltb_ℤ (pos 0) available
    then ok (tt, l)
    else Prelude.◌>>=◌
        (post_transfer_in_tx (wallet_migration user) (member_wallet user)
          (member_wallet_available user) legacy l)
        λ (_, l'). ok (tt, l')

unfoldable pub ensure_legacy_wallet_migrated_in_tx : ℕ → Ledger → Result (Unit {0} × Ledger)
unfolding migrate
ensure_legacy_wallet_migrated_in_tx user before =
    let l =
      get_or_create (member_wallet_available user) (get_or_create (member_wallet user) before) in
    migrate user (get_balance (member_wallet user) l) (get_balance (member_wallet_available user) l)
      l

pub record ReserveParams : Type 0 where
  pub user_id : ℕ
  pub group_id : ℕ
  pub payout_id : ℕ
  pub cycle_number : ℕ
  pub payout_position : ℕ
  pub split : ReserveSplitResult

-- `units || 1`
abbrev or_one : ℕ → ℕ
or_one units = if units == 0 then 1 else units

new_reserve : ReserveParams → ℕ → Reserve
new_reserve params id = record {
  id = id;
  user_id = params.user_id;
  group_id = params.group_id;
  payout_id = params.payout_id;
  cycle_number = params.cycle_number;
  payout_position = params.payout_position;
  original_reserve_amount = params.split.reserve_minor;
  remaining_reserve_amount = params.split.reserve_minor;
  released_amount = 0;
  used_for_default_amount = 0;
  release_per_contribution_amount =
      compute_release_per_unit_minor params.split.reserve_minor (or_one params.split.units);
  remaining_contribution_count_at_creation = params.split.units;
  contributions_released_count = 0;
  reserve_bps = params.split.reserve_bps;
  status = ReserveStatus.active;
}

-- Nothing to hold back: no row.
unfoldable pub insert_reserve : ReserveParams → Tx Db (Option ℕ)
unfolding new_reserve
insert_reserve params db =
    if leb params.split.reserve_minor 0
    then ok (none, db)
    else ok (
      some db.next_id,
      record db {
        reserves = new_reserve params db.next_id ∷ db.reserves;
        next_id = suc db.next_id;
      },
    )

unfoldable pub create_reserve_on_payout_in_tx : ReserveParams → Tx Db (Option ℕ)
unfolding insert_reserve
create_reserve_on_payout_in_tx params = do
  in_ledger (ensure_legacy_wallet_migrated_in_tx params.user_id)
  insert_reserve params
