-- ===== src/Reserve/Release.antt =====
-- tryReleaseOnPaymentSettledInTx.
pub mod Effect
pub mod Shortfall
use myturn_webportal.Prelude.{
  ℕ, suc, ◌+◌, ◌-◌, Bool, true, false, Option, none, some, List, [], ◌∷◌, if◌then◌else◌, ◌==◌, leb,
  ◌&&◌, ◌||◌, not, find_first, Result, ok, err,
}
use myturn_webportal.Prelude.Int.{pos}
use myturn_webportal.Txn.{Tx, ◌>>=◌, ◌>>◌, return, modify, gets}
use myturn_webportal.Shared.ReserveRules.{next_reserve_release_minor}
use myturn_webportal.Ledger.Account.{member_wallet_available, member_wallet_reserved}
use myturn_webportal.Ledger.Moves.{move_between}
use myturn_webportal.Ledger.Posting.Journal.{reserve_release}
use myturn_webportal.Ledger.Posting.{Ledger, Posted, post_transfer_in_tx}
use myturn_webportal.Store.Rows.{Reserve, ReserveStatus}
use myturn_webportal.Store.{Db, in_ledger, update_rows}
use myturn_webportal.Reserve.Split.{ReserveConfig}

abbrev pub is_active_reserve : ReserveStatus → Bool
is_active_reserve ReserveStatus.active = true
is_active_reserve ReserveStatus.released = false
is_active_reserve ReserveStatus.forfeited = false
is_active_reserve ReserveStatus.cancelled = false

-- `findFirst` by user, group and status ACTIVE.
unfoldable pub find_active_reserve : ℕ → ℕ → List Reserve → Option Reserve
find_active_reserve user group =
    find_first λ r. r.user_id == user && r.group_id == group && is_active_reserve r.status

pub record ReleaseParams : Type 0 where
  pub user_id : ℕ
  pub group_id : ℕ
  pub payment_id : ℕ
  pub cycle_number : ℕ

pub data ReleaseResult : Type 0 where
  not_released : ReleaseResult
  -- the amount, and whether the reserve is then fully released
  released : ℕ → Bool → ReleaseResult

abbrev pub next_release : Reserve → ℕ
next_release r =
    next_reserve_release_minor r.original_reserve_amount r.remaining_reserve_amount
      r.remaining_contribution_count_at_creation r.contributions_released_count

-- The early returns before the ledger is touched.
abbrev pub nothing_due : ReleaseParams → Reserve → Bool
nothing_due params r =
    leb params.cycle_number r.cycle_number
    || leb r.remaining_reserve_amount 0
    || leb r.remaining_contribution_count_at_creation r.contributions_released_count
    || leb (next_release r) 0

abbrev pub release_transfer : ReleaseParams → Reserve → Ledger → Result (Posted × Ledger)
release_transfer params r =
    move_between (reserve_release r.id params.payment_id) (member_wallet_reserved params.user_id)
      (member_wallet_available params.user_id) (pos (next_release r))

-- `newRemaining.lte(0) || newUnitsReleased >= totalUnits`
abbrev pub is_fully_released : Reserve → Bool
is_fully_released r =
    leb r.remaining_reserve_amount (next_release r)
    || leb r.remaining_contribution_count_at_creation (r.contributions_released_count + 1)

-- `Decimal.max(remaining - amount, 0)` is the truncated difference.
abbrev pub after_release : Reserve → Reserve → Reserve
after_release r row = record row {
  remaining_reserve_amount = r.remaining_reserve_amount - next_release r;
  released_amount = r.released_amount + next_release r;
  contributions_released_count = r.contributions_released_count + 1;
  status = if is_fully_released r then ReserveStatus.released else ReserveStatus.active;
}

-- A duplicate posting leaves the row alone.
unfoldable pub finish_release : Reserve → Bool → Tx Db ReleaseResult
finish_release r true db = ok (not_released, db)
finish_release r false db = ok (
  released (next_release r) (is_fully_released r),
  record db { reserves = update_rows (λ x. x.id == r.id) (after_release r) db.reserves },
)

unfoldable pub release_from : ReleaseParams → Reserve → Tx Db ReleaseResult
unfolding finish_release
release_from params r = do
  transfer ← in_ledger (release_transfer params r)
  finish_release r transfer.duplicate

release_found : ReleaseParams → Option Reserve → Tx Db ReleaseResult
unfolding release_from
release_found params none = return not_released
release_found params (some r) =
    if nothing_due params r then return not_released else release_from params r

unfoldable pub try_release_on_payment_settled_in_tx :
    ReserveConfig → ReleaseParams → Tx Db ReleaseResult
unfolding release_found find_active_reserve
try_release_on_payment_settled_in_tx config params db =
    if config.enabled
    then release_found params (find_active_reserve params.user_id params.group_id db.reserves) db
    else ok (not_released, db)
