-- ===== src/Payouts/Readiness.antt =====
-- assertCycleContributionsReadyForFinalize (payout-contribution-readiness.ts).
use myturn_webportal.Prelude.{
  ℕ, Bool, List, ◌==◌, ◌&&◌, not, any, filter_by, is_empty, Result, throw_if, contributions_unpaid,
}
use myturn_webportal.Store.Rows.{Contribution, GroupMember}
use myturn_webportal.CycleRisk.Deposits.{is_defaulted}
use myturn_webportal.CycleRisk.Protection.{is_paid}

-- `defaultedUserIds.has(user)`
abbrev pub is_excused : List GroupMember → ℕ → Bool
is_excused members user = any (λ m. m.user_id == user && is_defaulted m.cycle_standing) members

abbrev pub is_blocking : List GroupMember → Contribution → Bool
is_blocking members c = not (is_paid c.status) && not (is_excused members c.user_id)

unfoldable pub assert_cycle_contributions_ready_for_finalize :
    List Contribution → List GroupMember → Result (Unit {0})
assert_cycle_contributions_ready_for_finalize contribs members =
    throw_if (not (is_empty (filter_by (is_blocking members) contribs))) contributions_unpaid
