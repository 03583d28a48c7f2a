-- ===== src/Groups/Membership/Join.antt =====
-- A join by invite goes into a free slot, behind everybody.
use myturn_webportal.Prelude.{ℕ, ◌+◌, List}
use myturn_webportal.Store.Rows.{Group, GroupMember}
use myturn_webportal.Groups.Membership.{NewMember, max_turn}

abbrev pub newcomer : ℕ → ℕ → Group → List GroupMember → NewMember
newcomer user now g members = record {
  group = g;
  user_id = user;
  turn_order = max_turn members 0 + 1;
  effective_payout_order = max_turn members 0 + 1;
  now = now;
}
