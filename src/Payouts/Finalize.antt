-- ===== src/Payouts/Finalize.antt =====
-- PayoutsService.finalizeCycle (payouts.service.ts), up to the end of its transaction; the notices
-- and audit rows after it change nothing that is modelled.
pub mod Paid
pub mod Steps
pub mod Once
pub mod Money
pub mod Ready
use myturn_webportal.Prelude.{
  ℕ, suc, ◌+◌, ◌*◌, Bool, true, false, Option, none, some, List, [], ◌∷◌, map, if◌then◌else◌, ◌==◌,
  ◌&&◌, not, ltb, length, any, find_first, filter_by, Result, ok, err, Error, group_not_found,
  forbidden, group_not_active, wrong_cycle, no_members, member_count_mismatch,
  contributions_missing, payout_exists, no_recipient, unique_violation, is_empty,
}
use myturn_webportal.Prelude
use myturn_webportal.Prelude.Int.{ℤ, pos}
use myturn_webportal.Act
use myturn_webportal.Act.{Act}
use myturn_webportal.Txn.{Tx, ◌>>=◌, ◌>>◌, return, modify, gets, lift, throw_if, or_throw}
use myturn_webportal.Shared.Cycle.{CycleSummary, summarize_cycle}
use myturn_webportal.Shared.Queue.{
  PayoutQueueStanding, PayoutQueueMember, PayoutRecipientSelection, select_payout_recipient,
}
use myturn_webportal.Store.Rows.{
  Group, GroupStatus, GroupMember, Contribution, ContributionStatus, MemberCycleStanding, Payout,
  PayoutStatus, PayoutMode, AdminEarning,
}
use myturn_webportal.Store.{Db, update_rows}
use myturn_webportal.Reserve.Split.{ReserveConfig}
use myturn_webportal.Reserve.Completion.{
  FinalRelease, find_group, release_all_active_reserves_on_group_completed_in_tx,
}
use myturn_webportal.Allocation.Finalization.{
  Allocation, FinalizationParams, allocate_cycle_finalization_in_tx,
}
use myturn_webportal.CycleRisk.Deposits.{is_cycle, release_all_held_deposits_for_group}
use myturn_webportal.CycleRisk.Protection.{CycleNotices, is_active_group, with_standing}
use myturn_webportal.CycleRisk.Compliance.{
  active_members, cycle_contributions, sync_group_compliance,
}
use myturn_webportal.Payouts.Readiness.{assert_cycle_contributions_ready_for_finalize}
use myturn_webportal.Payouts.Params.{is_admin, FinalizeParams, member_cycle_payment_days}
use myturn_webportal.Payouts.Recipient.{group_members, select_for, member_of, peek_recipient}
use myturn_webportal.Payouts.Advance.{finalization_of, new_payout, record_payout, advance}

abbrev pub has_payout : ℕ → ℕ → List Payout → Bool
has_payout group cycle = any λ p. p.group_id == group && p.cycle_number == cycle

-- The guards of the transaction, in their order.
unfoldable pub check_finalize : FinalizeParams → Group → List GroupMember → Tx Db (Unit {0})
check_finalize params g members db =
    (throw_if (is_admin params.finalized_by_role && not (g.admin_id == params.finalized_by_user_id))
          forbidden
        >> throw_if (not (is_active_group g.status)) group_not_active
        >> throw_if (not (g.current_cycle == params.cycle_number)) wrong_cycle
        >> throw_if (length members == 0) no_members
        >> throw_if (not (length members == g.member_slots)) member_count_mismatch
        >> throw_if
            (not (
              length (cycle_contributions params.group_id params.cycle_number db.contributions)
              == length members))
            contributions_missing
        >> lift (
            assert_cycle_contributions_ready_for_finalize
              (cycle_contributions params.group_id params.cycle_number db.contributions) members)
        >> throw_if (has_payout params.group_id params.cycle_number db.payouts) payout_exists)
      db

pub record Finalized : Type 0 where
  pub payout : Payout
  pub summary : CycleSummary
  pub allocation : Allocation
  pub group_completed : Bool
  pub releases : List FinalRelease

abbrev pub finalized :
    FinalizeParams → CycleSummary → ℕ → ℕ → Allocation → Bool × List FinalRelease → Finalized
finalized params summary recipient id allocation (completed, releases) = record {
  payout = new_payout params recipient summary id;
  summary = summary;
  allocation = allocation;
  group_completed = completed;
  releases = releases;
}

unfoldable pub pay_recipient :
    ReserveConfig
    → FinalizeParams
    → Group
    → List GroupMember
    → CycleSummary
    → GroupMember
    → Tx Db Finalized
unfolding advance
pay_recipient config params g members summary recipient db =
    (allocate_cycle_finalization_in_tx config
          (finalization_of params g (length members) recipient.user_id db.next_id)
        >>= λ allocation. advance params g members >>= λ r.
            return (finalized params summary recipient.user_id db.next_id allocation r))
      (record_payout params g recipient.user_id summary db)

unfoldable pub finalize_members :
    ReserveConfig → FinalizeParams → Group → List GroupMember → Tx Db Finalized
unfolding check_finalize pay_recipient
finalize_members config params g members = do
  check_finalize params g members
  summary ← lift (
      summarize_cycle params.cycle_number (pos g.contribution_amount) (pos (length members))
        (pos g.service_margin_bps) (pos (member_cycle_payment_days g)))
  selection ← lift (select_for g params.cycle_number members)
  recipient ← or_throw (member_of members selection.recipient) no_recipient
  pay_recipient config params g members summary recipient

unfoldable pub finalize_found : ReserveConfig → FinalizeParams → Option Group → Tx Db Finalized
unfolding finalize_members group_members
finalize_found config params none db = err group_not_found
finalize_found config params (some g) db =
    finalize_members config params g (group_members params.group_id db) db

unfoldable pub finalize_in_tx : ReserveConfig → FinalizeParams → Tx Db Finalized
unfolding finalize_found find_group
finalize_in_tx config params db =
    finalize_found config params (find_group params.group_id db.groups) db

unfoldable pub finalize_cycle : ReserveConfig → CycleNotices → ℕ → FinalizeParams → Act Db Finalized
unfolding finalize_in_tx peek_recipient
finalize_cycle config notices now params =
    Act.◌>>=◌ (sync_group_compliance config notices now params.group_id) λ _.
      Act.◌>>=◌
        (λ db. Act.committed db (peek_recipient params (find_group params.group_id db.groups) db))
        λ _. Act.transaction (finalize_in_tx config params)
