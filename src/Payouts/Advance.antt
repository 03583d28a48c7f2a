-- ===== src/Payouts/Advance.antt =====
-- The rows that finalizeCycle writes: the payout, and the next cycle or the end of the group.
use myturn_webportal.Prelude.{
  ℕ, suc, ◌*◌, Bool, true, false, List, [], ◌∷◌, if◌then◌else◌, ◌==◌, ◌&&◌, ltb, ok,
}
use myturn_webportal.Txn.{Tx, ◌>>=◌, ◌>>◌, return}
use myturn_webportal.Shared.Cycle.{CycleSummary}
use myturn_webportal.Store.Rows.{
  Group, GroupStatus, GroupMember, Contribution, ContributionStatus, MemberCycleStanding, Payout,
  PayoutStatus, AdminEarning,
}
use myturn_webportal.Store.{Db, update_rows}
use myturn_webportal.Reserve.Completion.{
  FinalRelease, release_all_active_reserves_on_group_completed_in_tx,
}
use myturn_webportal.Allocation.Finalization.{FinalizationParams}
use myturn_webportal.CycleRisk.Deposits.{is_cycle, release_all_held_deposits_for_group}
use myturn_webportal.CycleRisk.Protection.{with_standing}
use myturn_webportal.Payouts.Params.{FinalizeParams, member_cycle_payment_days}

abbrev pub finalization_of : FinalizeParams → Group → ℕ → ℕ → ℕ → FinalizationParams
finalization_of params g n recipient payout_id = record {
  group_id = params.group_id;
  cycle_number = params.cycle_number;
  payout_id = payout_id;
  recipient_user_id = recipient;
  contribution_per_day = g.contribution_amount;
  member_count = n;
  service_margin_bps = g.service_margin_bps;
  days_per_cycle = member_cycle_payment_days g;
  payout_position = params.cycle_number;
  total_positions = n;
}

abbrev pub new_payout : FinalizeParams → ℕ → CycleSummary → ℕ → Payout
new_payout params recipient summary id = record {
  id = id;
  group_id = params.group_id;
  recipient_id = recipient;
  cycle_number = params.cycle_number;
  amount = summary.net_after_margin_minor;
  status = PayoutStatus.credited;
}

abbrev pub new_earning : FinalizeParams → Group → CycleSummary → AdminEarning
new_earning params g summary = record {
  admin_id = g.admin_id;
  group_id = params.group_id;
  cycle_number = params.cycle_number;
  margin_amount = summary.service_margin_minor;
  admin_share_amount = 0;
  platform_share_amount = summary.service_margin_minor;
}

-- The payout's row and the platform's revenue.
abbrev pub record_payout : FinalizeParams → Group → ℕ → CycleSummary → Db → Db
record_payout params g recipient summary db = record db {
  payouts = new_payout params recipient summary db.next_id ∷ db.payouts;
  earnings = new_earning params g summary ∷ db.earnings;
  next_id = suc db.next_id;
}

abbrev pub new_contribution : Group → ℕ → ℕ → GroupMember → ℕ → Contribution
new_contribution g group cycle m id = record {
  id = id;
  group_id = group;
  user_id = m.user_id;
  cycle_number = cycle;
  amount = g.contribution_amount * member_cycle_payment_days g;
  expected_day_count = member_cycle_payment_days g;
  paid_day_count = 0;
  status = ContributionStatus.pending;
}

-- One PENDING contribution for each member.
unfoldable pub open_contributions : Group → ℕ → ℕ → List GroupMember → Db → Db
open_contributions g group cycle [] db = db
open_contributions g group cycle (m ∷ ms) db = open_contributions g group cycle ms (record db {
  contributions = new_contribution g group cycle m db.next_id ∷ db.contributions;
  next_id = suc db.next_id;
})

abbrev pub is_late : MemberCycleStanding → Bool
is_late MemberCycleStanding.active = false
is_late MemberCycleStanding.late = true
is_late MemberCycleStanding.defaulted = false

abbrev pub clear_late : Group → ℕ → Db → Db
clear_late g group db =
    if is_cycle g.payout_mode
    then record db {
      members =
          update_rows (λ m. m.group_id == group && m.is_active && is_late m.cycle_standing)
            (with_standing MemberCycleStanding.active) db.members;
    }
    else db

abbrev pub set_cycle : ℕ → ℕ → Db → Db
set_cycle group cycle db = record db {
  groups = update_rows (λ g. g.id == group) (λ g. record g { current_cycle = cycle }) db.groups;
}

abbrev pub complete_group : ℕ → Db → Db
complete_group group db = record db {
  groups =
      update_rows (λ g. g.id == group) (λ g. record g { status = GroupStatus.completed }) db.groups;
}

abbrev pub completed_with : List FinalRelease → Bool × List FinalRelease
completed_with releases = (true, releases)

-- The last cycle returns what is held of the members' money.
unfoldable pub release_group : FinalizeParams → Tx Db (Bool × List FinalRelease)
release_group params = do
  release_all_held_deposits_for_group params.group_id
  releases ← release_all_active_reserves_on_group_completed_in_tx params.group_id
  return (completed_with releases)

-- The next cycle, or the end of the group.
unfoldable pub advance :
    FinalizeParams → Group → List GroupMember → Tx Db (Bool × List FinalRelease)
unfolding open_contributions release_group
advance params g members db =
    if ltb params.cycle_number g.member_slots
    then ok (
      (false, []),
      clear_late g params.group_id (
          open_contributions g params.group_id (suc params.cycle_number) members
            (set_cycle params.group_id (suc params.cycle_number) db)),
    )
    else release_group params (complete_group params.group_id db)
