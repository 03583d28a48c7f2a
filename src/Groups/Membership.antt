-- ===== src/Groups/Membership.antt =====
-- The ways into a group: joinWithInvite (groups.service.ts) once the user is known, addMember
-- (group-members.service.ts) and replaceDefaultingMember (groups.service.ts). What these check before
-- their transaction writes nothing that is modelled, so that each is one transaction here.
pub mod Admission
pub mod Join
pub mod Replacement
use myturn_webportal.Prelude.{
  ℕ, suc, ◌+◌, Bool, true, false, Option, none, some, List, [], ◌∷◌, if◌then◌else◌, leb, ltb, ◌==◌,
  ◌&&◌, not, any, length, max, find_first, filter_by, Result, ok, err, Error, group_not_found,
  forbidden, group_not_active, group_not_draft, not_accepting_members, already_member,
  member_not_found, not_defaulted, unique_violation, turn_order_taken, user_not_found,
}
use myturn_webportal.Txn.{Tx, ◌>>=◌, ◌>>◌, return, modify, throw_if, or_throw}
use myturn_webportal.Store.Rows.{
  Group, GroupStatus, GroupMember, MemberCycleStanding, DepositStatus, Contribution,
  ContributionStatus, User,
}
use myturn_webportal.Store.{Db, update_rows}
use myturn_webportal.Reserve.Completion.{find_group}
use myturn_webportal.CycleRisk.Deposits.{JoinDepositResult, is_defaulted, apply_deposit_on_join}
use myturn_webportal.CycleRisk.Protection.{
  is_active_group, find_cycle_contribution, assert_can_join_new_group,
}
use myturn_webportal.CycleRisk.Compliance.{active_members}

-- An ACTIVE group takes members only while it has none.
unfoldable pub group_accepts_new_members : GroupStatus → ℕ → ℕ → Bool
group_accepts_new_members GroupStatus.draft n slots = not (leb slots n)
group_accepts_new_members GroupStatus.active n slots = not (leb slots n) && n == 0
group_accepts_new_members GroupStatus.completed n slots = false
group_accepts_new_members GroupStatus.cancelled n slots = false

pub record NewMember : Type 0 where
  pub group : Group
  pub user_id : ℕ
  pub turn_order : ℕ
  pub effective_payout_order : ℕ
  -- `Date.now()`
  pub now : ℕ

abbrev pub new_member : NewMember → ℕ → GroupMember
new_member n id = record {
  id = id;
  group_id = n.group.id;
  user_id = n.user_id;
  turn_order = n.turn_order;
  is_active = true;
  cycle_standing = MemberCycleStanding.active;
  deposit_amount = 0;
  deposit_status = DepositStatus.not_required;
  effective_payout_order = n.effective_payout_order;
}

-- `@@unique([groupId, userId])`, of members who have left, too
abbrev pub is_taken : ℕ → ℕ → List GroupMember → Bool
is_taken group user = any λ m. m.group_id == group && m.user_id == user

unfoldable pub create_member : NewMember → Tx Db ℕ
create_member n db =
    if is_taken n.group.id n.user_id db.members
    then err unique_violation
    else ok (
      db.next_id,
      record db { members = new_member n db.next_id ∷ db.members; next_id = suc db.next_id },
    )

abbrev pub with_join_deposit : JoinDepositResult → GroupMember → GroupMember
with_join_deposit dep m = record m {
  deposit_amount = dep.deposit_amount;
  deposit_status = dep.deposit_status;
}

abbrev pub set_join_deposit : ℕ → JoinDepositResult → Db → Db
set_join_deposit member dep db = record db {
  members = update_rows (λ m. m.id == member) (with_join_deposit dep) db.members;
}

-- The row, the deposit, and what became of it.
unfoldable pub admit : NewMember → Tx Db ℕ
unfolding create_member
admit n = do
  id ← create_member n
  dep ←
      apply_deposit_on_join
        (record { user_id = n.user_id; member_id = id; group = n.group; now = n.now })
  modify (set_join_deposit id dep)
  return id

-- `members.reduce((max, m) => Math.max(max, m.turnOrder), 0)`
unfoldable pub max_turn : List GroupMember → ℕ → ℕ
max_turn [] acc = acc
max_turn (m ∷ ms) acc = max_turn ms (max acc m.turn_order)

abbrev pub is_member : ℕ → List GroupMember → Bool
is_member user = any λ m. m.user_id == user

unfoldable pub join_group : ℕ → ℕ → Group → List GroupMember → Tx Db ℕ
unfolding admit max_turn
join_group user now g members = do
  throw_if (not (group_accepts_new_members g.status (length members) g.member_slots))
      not_accepting_members
  throw_if (is_member user members) already_member
  assert_can_join_new_group user
  admit (record {
    group = g;
    user_id = user;
    turn_order = max_turn members 0 + 1;
    effective_payout_order = max_turn members 0 + 1;
    now = now;
  })

-- The group is found by its invite code, which is unique: its id stands for it.
unfoldable pub join_with_invite : ℕ → ℕ → ℕ → Tx Db ℕ
unfolding join_group find_group
join_with_invite group user now db =
    (or_throw (find_group group db.groups) group_not_found >>= λ g.
    join_group user now g (active_members g.id db.members))
      db

pub record AddMemberParams : Type 0 where
  pub group_id : ℕ
  pub admin_id : ℕ
  pub user_id : ℕ
  pub turn_order : ℕ
  pub now : ℕ

abbrev pub is_draft : GroupStatus → Bool
is_draft GroupStatus.draft = true
is_draft GroupStatus.active = false
is_draft GroupStatus.completed = false
is_draft GroupStatus.cancelled = false

-- All rows of the group count here, those of members who have left, too.
unfoldable pub add_to_group : AddMemberParams → Group → List GroupMember → Tx Db ℕ
unfolding admit
add_to_group params g members = do
  throw_if (not (is_draft g.status)) group_not_draft
  throw_if (not (g.admin_id == params.admin_id)) forbidden
  throw_if (leb g.member_slots (length members)) not_accepting_members
  throw_if (is_member params.user_id members) already_member
  throw_if (any (λ m. m.turn_order == params.turn_order) members) turn_order_taken
  admit (record {
    group = g;
    user_id = params.user_id;
    turn_order = params.turn_order;
    effective_payout_order = params.turn_order;
    now = params.now;
  })

unfoldable pub add_member : AddMemberParams → Tx Db ℕ
unfolding add_to_group find_group
add_member params db =
    (or_throw (find_group params.group_id db.groups) group_not_found >>= λ g.
    add_to_group params g (filter_by (λ m. m.group_id == g.id) db.members))
      db

pub record ReplaceParams : Type 0 where
  pub admin_id : ℕ
  pub group_id : ℕ
  pub old_user_id : ℕ
  pub new_user_id : ℕ
  pub now : ℕ

abbrev pub set_left : ℕ → Db → Db
set_left member db = record db {
  members = update_rows (λ m. m.id == member) (λ m. record m { is_active = false }) db.members;
}

abbrev pub handed_to : ℕ → Contribution → Contribution
handed_to user c = record c {
  user_id = user;
  paid_day_count = 0;
  status = ContributionStatus.pending;
}

-- The new member owes what the old one did, from the first day on.
abbrev pub hand_over : ℕ → Option Contribution → Db → Db
hand_over user none db = db
hand_over user (some c) db = record db {
  contributions = update_rows (λ x. x.id == c.id) (handed_to user) db.contributions;
}

unfoldable pub replace_in_tx : ReplaceParams → Group → GroupMember → Tx Db (Unit {0})
unfolding admit find_cycle_contribution
replace_in_tx params g old = do
  modify (set_left old.id)
  _ ← admit (record {
    group = g;
    user_id = params.new_user_id;
    turn_order = old.turn_order;
    effective_payout_order = old.effective_payout_order;
    now = params.now;
  })
  modify λ db.
      hand_over params.new_user_id
        (find_cycle_contribution g.id params.old_user_id g.current_cycle db.contributions) db

abbrev pub find_user : ℕ → List User → Option User
find_user user = find_first λ u. u.id == user

unfoldable pub replace_in_group :
    ReplaceParams → Group → List GroupMember → List User → Tx Db (Unit {0})
unfolding replace_in_tx
replace_in_group params g members users = do
  throw_if (not (g.admin_id == params.admin_id)) forbidden
  throw_if (not (is_active_group g.status)) group_not_active
  old ← or_throw (find_first (λ m. m.user_id == params.old_user_id) members) member_not_found
  throw_if (not (is_defaulted old.cycle_standing)) not_defaulted
  throw_if (is_member params.new_user_id members) already_member
  _ ← or_throw (find_user params.new_user_id users) user_not_found
  replace_in_tx params g old

unfoldable pub replace_defaulting_member : ReplaceParams → Tx Db (Unit {0})
unfolding replace_in_group find_group
replace_defaulting_member params db =
    (or_throw (find_group params.group_id db.groups) group_not_found >>= λ g.
    replace_in_group params g (active_members g.id db.members) db.users)
      db
