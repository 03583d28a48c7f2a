-- ===== src/CycleRisk/Protection.antt =====
-- DefaultProtectionService (default-protection.service.ts): the restrictions of a member who is
-- DEFAULTED, what a new default brings, and its end. The prompts for display are left out.
use myturn_webportal.Prelude.{
  ℕ, ◌+◌, Bool, true, false, Option, none, some, List, [], ◌∷◌, ◌++◌, if◌then◌else◌, ◌==◌, ◌&&◌,
  not, any, filter_by, find_first, is_empty, max, ok, notification_failed, withdrawal_restricted,
  join_restricted,
}
use myturn_webportal.Txn.{Tx, ◌>>=◌, ◌>>◌, return, modify, throw_if}
use myturn_webportal.Store.Rows.{
  GroupMember, Group, GroupStatus, Contribution, ContributionStatus, MemberCycleStanding, Payout,
  PayoutStatus,
}
use myturn_webportal.Store.{Db, update_rows}
use myturn_webportal.Reserve.Completion.{find_group}
use myturn_webportal.Reserve.Cover.{
  CoverResult, covered, not_covered, cover_default_from_reserve_in_tx,
}
use myturn_webportal.Reserve.Split.{ReserveConfig}
use myturn_webportal.CycleRisk.Deposits.{is_defaulted, find_member}

pub record Restriction : Type 0 where
  pub group_id : ℕ
  pub cycle_number : ℕ
  pub contribution_id : Option ℕ

abbrev pub is_paid : ContributionStatus → Bool
is_paid ContributionStatus.paid = true
is_paid ContributionStatus.pending = false
is_paid ContributionStatus.late = false
is_paid ContributionStatus.waived = false

abbrev pub is_active_group : GroupStatus → Bool
is_active_group GroupStatus.active = true
is_active_group GroupStatus.draft = false
is_active_group GroupStatus.completed = false
is_active_group GroupStatus.cancelled = false

-- `findFirst` by group, user and cycle.
unfoldable pub find_cycle_contribution : ℕ → ℕ → ℕ → List Contribution → Option Contribution
find_cycle_contribution group user cycle =
    find_first λ c. c.group_id == group && c.user_id == user && c.cycle_number == cycle

-- The contribution of the group's current cycle is missing or not PAID.
unfoldable pub restriction_of : Group → Option Contribution → List Restriction
restriction_of g none =
    record { group_id = g.id; cycle_number = g.current_cycle; contribution_id = none } ∷ []
restriction_of g (some c) =
    if is_paid c.status
    then []
    else record { group_id = g.id; cycle_number = g.current_cycle; contribution_id = some c.id }
      ∷ []

unfoldable pub restrictions_in : ℕ → Db → Option Group → List Restriction
unfolding restriction_of
restrictions_in user db none = []
restrictions_in user db (some g) =
    if is_active_group g.status
    then restriction_of g (find_cycle_contribution g.id user g.current_cycle db.contributions)
    else []

unfoldable pub restrictions_of : ℕ → Db → List GroupMember → List Restriction
unfolding restrictions_in
restrictions_of user db [] = []
restrictions_of user db (m ∷ ms) =
    restrictions_in user db (find_group m.group_id db.groups) ++ restrictions_of user db ms

abbrev pub defaulted_memberships : ℕ → List GroupMember → List GroupMember
defaulted_memberships user =
    filter_by λ m. m.user_id == user && m.is_active && is_defaulted m.cycle_standing

unfoldable pub find_unresolved_default_restrictions : ℕ → Db → List Restriction
unfolding restrictions_of
find_unresolved_default_restrictions user db =
    restrictions_of user db (defaulted_memberships user db.members)

unfoldable pub is_restricted : ℕ → Db → Bool
is_restricted user db = not (is_empty (find_unresolved_default_restrictions user db))

unfoldable pub assert_withdrawal_not_restricted : ℕ → Tx Db (Unit {0})
assert_withdrawal_not_restricted user db = throw_if (is_restricted user db) withdrawal_restricted db

unfoldable pub assert_can_join_new_group : ℕ → Tx Db (Unit {0})
assert_can_join_new_group user db = throw_if (is_restricted user db) join_restricted db

-- The notices of this part, each with the user that it is for.
pub data CycleNotice : Type 0 where
  reserve_used partial_cover turn_skipped : ℕ → CycleNotice
  cycle_defaulted admin_cycle_defaulted payment_overdue : ℕ → CycleNotice

-- Whether `notifications.create` stores it.
abbrev pub CycleNotices : Type 0
CycleNotices = CycleNotice → Bool

abbrev pub notice : CycleNotices → CycleNotice → Tx Db (Unit {0})
notice notices n = throw_if (not (notices n)) notification_failed

abbrev pub is_credited : PayoutStatus → Bool
is_credited PayoutStatus.credited = true
is_credited PayoutStatus.completed = true
is_credited PayoutStatus.pending = false
is_credited PayoutStatus.processing = false
is_credited PayoutStatus.failed = false

unfoldable pub has_received_payout_in_group : ℕ → ℕ → List Payout → Bool
has_received_payout_in_group user group =
    any λ p. p.group_id == group && p.recipient_id == user && is_credited p.status

pub record DefaultParams : Type 0 where
  pub member_id : ℕ
  pub user_id : ℕ
  pub group_id : ℕ
  pub contribution_id : ℕ

-- `if (cover.covered && cover.amount)`: an amount is a text, and "0.00" is not empty.
abbrev pub notice_cover : CycleNotices → ℕ → CoverResult → Tx Db (Unit {0})
notice_cover notices user not_covered = return tt
notice_cover notices user (covered c) =
    if c.fully_covered
    then notice notices (reserve_used user)
    else notice notices (partial_cover user)

-- `members.reduce`
unfoldable pub max_order : ℕ → List GroupMember → ℕ → ℕ
max_order group [] acc = acc
max_order group (m ∷ ms) acc =
    max_order group ms
      (if m.group_id == group && m.is_active then max acc m.effective_payout_order else acc)

abbrev pub with_order : ℕ → GroupMember → GroupMember
with_order order m = record m { effective_payout_order = order }

abbrev pub dequeue : DefaultParams → Db → Db
dequeue params db = record db {
  members =
      update_rows (λ m. m.id == params.member_id)
        (with_order (max_order params.group_id db.members 0 + 1)) db.members;
}

-- With a payout, the reserve pays; without, the member goes to the end of the queue.
unfoldable pub on_default : ReserveConfig → CycleNotices → DefaultParams → Bool → Tx Db (Unit {0})
on_default config notices params true =
    cover_default_from_reserve_in_tx config (record {
      user_id = params.user_id;
      group_id = params.group_id;
      contribution_id = params.contribution_id;
    })
    >>= notice_cover notices params.user_id
on_default config notices params false =
    modify (dequeue params) >> notice notices (turn_skipped params.user_id)

unfoldable pub on_member_newly_defaulted :
    ReserveConfig → CycleNotices → DefaultParams → Tx Db (Unit {0})
on_member_newly_defaulted config notices params db =
    on_default config notices params
      (has_received_payout_in_group params.user_id params.group_id db.payouts) db

abbrev pub with_standing : MemberCycleStanding → GroupMember → GroupMember
with_standing s m = record m { cycle_standing = s }

abbrev pub set_standing : MemberCycleStanding → ℕ → Db → Db
set_standing s member db = record db {
  members = update_rows (λ m. m.id == member) (with_standing s) db.members;
}

unfoldable pub settle_standing : ℕ → Option GroupMember → Tx Db (Unit {0})
settle_standing member none db = ok (tt, db)
settle_standing member (some m) db =
    if is_defaulted m.cycle_standing
    then ok (tt, set_standing MemberCycleStanding.active member db)
    else ok (tt, db)

unfoldable pub on_contribution_fully_settled : ℕ → Tx Db (Unit {0})
unfolding settle_standing
on_contribution_fully_settled member db = settle_standing member (find_member member db.members) db
