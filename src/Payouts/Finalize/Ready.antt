-- ===== src/Payouts/Finalize/Ready.antt =====
-- Who has not paid when a cycle is paid out.
use myturn_webportal.Prelude.{◌≡◌, ◌⊎◌, true, List}
use myturn_webportal.Store.Rows.{Contribution, GroupMember}
use myturn_webportal.CycleRisk.Protection.{is_paid}
use myturn_webportal.Payouts.Readiness.{is_excused}

-- A contribution that does not stand in the way of the payout.
abbrev pub IsSettled : List GroupMember → Contribution → Type 0
IsSettled members c = (is_paid c.status ≡ true) ⊎ (is_excused members c.user_id ≡ true)
