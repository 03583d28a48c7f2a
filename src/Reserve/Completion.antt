-- ===== src/Reserve/Completion.antt =====
-- releaseAllActiveReservesOnGroupCompletedInTx with the final release, the sweep of what is left in
-- the reserved wallet, and markReserveFullyReleasedInTx.
pub mod Final
pub mod Sweep
pub mod Frame
use myturn_webportal.Prelude.{
  ℕ, suc, ◌+◌, ◌-◌, Bool, true, false, Option, none, some, List, [], ◌∷◌, if◌then◌else◌, ◌==◌, leb,
  ltb, ◌&&◌, ◌||◌, not, find_first, filter_by, any, ◌++◌, Result, ok, err,
}
use myturn_webportal.Prelude.Int.{ℤ, pos, leb_ℤ}
use myturn_webportal.Txn.{Tx, ◌>>=◌, ◌>>◌, return, modify, gets}
use myturn_webportal.Ledger.Account.{member_wallet_reserved, member_wallet_available}
use myturn_webportal.Ledger.Accounts.{get_or_create, get_balance}
use myturn_webportal.Ledger.Moves.{move_between}
use myturn_webportal.Ledger.Posting.Journal.{final_release, orphan_sweep}
use myturn_webportal.Ledger.Posting.{Ledger, Posted}
use myturn_webportal.Store.Rows.{Reserve, ReserveStatus, Group, GroupStatus}
use myturn_webportal.Store.{Db, in_ledger, on_ledger, update_rows}
use myturn_webportal.Reserve.Release.{is_active_reserve}

-- `releaseAmount` is added to what was released if it is above 0; adding 0 is the same.
abbrev pub fully_released : Reserve → ℕ → Reserve → Reserve
fully_released r amount row = record row {
  remaining_reserve_amount = 0;
  released_amount = if leb amount 0 then row.released_amount else r.released_amount + amount;
  contributions_released_count = r.remaining_contribution_count_at_creation;
  status = ReserveStatus.released;
}

unfoldable pub mark_reserve_fully_released_in_tx : Reserve → ℕ → Tx Db (Unit {0})
mark_reserve_fully_released_in_tx r amount = modify λ db. record db {
  reserves = update_rows (λ x. x.id == r.id) (fully_released r amount) db.reserves;
}

unfoldable pub find_reserve : ℕ → List Reserve → Option Reserve
find_reserve id = find_first λ r. r.id == id

pub data FinalRelease : Type 0 where
  nothing_released : FinalRelease
  final_released : ℕ → ℕ → FinalRelease

-- A duplicate posting: the row is marked if it still is ACTIVE with something remaining.
unfoldable pub finish_duplicate : Reserve → Option Reserve → Tx Db FinalRelease
unfolding mark_reserve_fully_released_in_tx
finish_duplicate r none db = ok (nothing_released, db)
finish_duplicate r (some fresh) db =
    if not (is_active_reserve fresh.status) || leb fresh.remaining_reserve_amount 0
    then ok (nothing_released, db)
    else (mark_reserve_fully_released_in_tx fresh r.remaining_reserve_amount
          >> return (final_released r.id r.remaining_reserve_amount))
        db

unfoldable pub finish_final : Reserve → Bool → Tx Db FinalRelease
unfolding mark_reserve_fully_released_in_tx finish_duplicate find_reserve
finish_final r true db = finish_duplicate r (find_reserve r.id db.reserves) db
finish_final r false db =
    (mark_reserve_fully_released_in_tx r r.remaining_reserve_amount
        >> return (final_released r.id r.remaining_reserve_amount))
      db

abbrev pub final_transfer : Reserve → Ledger → Result (Posted × Ledger)
final_transfer r =
    move_between (final_release r.id) (member_wallet_reserved r.user_id)
      (member_wallet_available r.user_id) (pos r.remaining_reserve_amount)

unfoldable pub release_final_reserve_on_group_completed_in_tx : Reserve → Tx Db FinalRelease
unfolding mark_reserve_fully_released_in_tx finish_final
release_final_reserve_on_group_completed_in_tx r db =
    if leb r.remaining_reserve_amount 0
    then (mark_reserve_fully_released_in_tx r 0 >> return nothing_released) db
    else (in_ledger (final_transfer r) >>= λ transfer. finish_final r transfer.duplicate) db

abbrev pub has_active_reserve : ℕ → List Reserve → Bool
has_active_reserve user = any λ r. r.user_id == user && is_active_reserve r.status

unfoldable pub sweep_balance : ℕ → ℤ → Tx Db (Unit {0})
sweep_balance user balance db =
    if leb_ℤ balance (pos 0)
    then ok (tt, db)
    else (in_ledger (
            move_between (orphan_sweep user) (member_wallet_reserved user)
              (member_wallet_available user) balance)
          >>= λ _. return tt)
        db

abbrev pub with_reserved : ℕ → Db → Db
with_reserved user = on_ledger (get_or_create (member_wallet_reserved user))

unfoldable pub sweep_orphaned_reserved_balance_in_tx : ℕ → Tx Db (Unit {0})
unfolding sweep_balance
sweep_orphaned_reserved_balance_in_tx user db =
    if has_active_reserve user db.reserves
    then ok (tt, db)
    else sweep_balance user
        (get_balance (member_wallet_reserved user) (with_reserved user db).ledger)
        (with_reserved user db)

-- `Set` keeps the first occurrence of each user.
add_user : ℕ → List ℕ → List ℕ
add_user u users = if any (λ x. x == u) users then users else users ++ (u ∷ [])

-- The results that say `released`, and the users in the order in which they were met.
unfoldable pub release_each :
    List Reserve → List FinalRelease → List ℕ → Tx Db (List FinalRelease × List ℕ)
unfolding release_final_reserve_on_group_completed_in_tx add_user
release_each [] results users = return (results, users)
release_each (r ∷ rs) results users = release_final_reserve_on_group_completed_in_tx r >>= λ result.
    release_each rs (keep result results) (add_user r.user_id users)
  where
    keep : FinalRelease → List FinalRelease → List FinalRelease
    keep nothing_released kept = kept
    keep (final_released id amount) kept = kept ++ (final_released id amount ∷ [])

unfoldable pub sweep_each : List ℕ → Tx Db (Unit {0})
unfolding sweep_orphaned_reserved_balance_in_tx
sweep_each [] = return tt
sweep_each (u ∷ us) = sweep_orphaned_reserved_balance_in_tx u >> sweep_each us

abbrev pub is_completed : GroupStatus → Bool
is_completed GroupStatus.completed = true
is_completed GroupStatus.draft = false
is_completed GroupStatus.active = false
is_completed GroupStatus.cancelled = false

unfoldable pub find_group : ℕ → List Group → Option Group
find_group id = find_first λ g. g.id == id

abbrev pub active_reserves : ℕ → List Reserve → List Reserve
active_reserves group = filter_by λ r. r.group_id == group && is_active_reserve r.status

unfoldable pub release_all : List Reserve → Tx Db (List FinalRelease)
unfolding release_each sweep_each
release_all reserves =
    release_each reserves [] [] >>= λ (results, users). sweep_each users >> return results

unfoldable pub release_in_group : ℕ → Option Group → Tx Db (List FinalRelease)
unfolding release_all
release_in_group group none db = ok ([], db)
release_in_group group (some g) db =
    if is_completed g.status
    then release_all (active_reserves group db.reserves) db
    else ok ([], db)

unfoldable pub release_all_active_reserves_on_group_completed_in_tx : ℕ → Tx Db (List FinalRelease)
unfolding release_in_group find_group
release_all_active_reserves_on_group_completed_in_tx group db =
    release_in_group group (find_group group db.groups) db
