-- ===== src/CycleRisk/Compliance/Default.antt =====
-- The transaction of a new default, for a member who has had no payout yet.
use myturn_webportal.Prelude.{ℕ, ◌<◌, ◌≡◌, ◌≢◌, Bool, true, ◌==◌, ◌&&◌, All}
use myturn_webportal.Store.Rows.{GroupMember, MemberCycleStanding, DepositStatus}
use myturn_webportal.Store.{Db}

abbrev pub in_queue : ℕ → GroupMember → Bool
in_queue group m = m.group_id == group && m.is_active

-- The row of the member afterwards.
abbrev pub defaulted_row : ℕ → GroupMember → GroupMember
defaulted_row order m = record m {
  cycle_standing = MemberCycleStanding.defaulted;
  deposit_status = DepositStatus.forfeited;
  effective_payout_order = order;
}

-- Everybody else in the queue of the group is in front of it.
abbrev pub IsLast : ℕ → ℕ → ℕ → Db → Type 0
IsLast group member order db =
    All (λ x. x.id ≢ member → in_queue group x ≡ true → x.effective_payout_order < order) db.members
