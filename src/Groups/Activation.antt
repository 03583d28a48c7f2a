-- ===== src/Groups/Activation.antt =====
-- activate (groups.service.ts): the start of a group.
use myturn_webportal.Prelude.{
  ℕ, List, not, length, ◌==◌, group_not_found, forbidden, slots_not_filled, group_not_draft,
}
use myturn_webportal.Txn.{Tx, ◌>>=◌, ◌>>◌, modify, throw_if, or_throw}
use myturn_webportal.Store.Rows.{Group, GroupStatus, GroupMember}
use myturn_webportal.Store.{Db, update_rows}
use myturn_webportal.Reserve.Completion.{find_group}
use myturn_webportal.CycleRisk.Compliance.{active_members}
use myturn_webportal.Payouts.Advance.{open_contributions}
use myturn_webportal.Groups.Membership.{is_draft}

abbrev pub activated : Group → Group
activated g = record g { status = GroupStatus.active; current_cycle = 1 }

abbrev pub start_group : ℕ → Db → Db
start_group group db = record db { groups = update_rows (λ g. g.id == group) activated db.groups }

-- The contributions of the first cycle are made as finalizeCycle makes those of the next.
unfoldable pub activate_group : ℕ → ℕ → Group → List GroupMember → Tx Db (Unit {0})
unfolding open_contributions
activate_group admin group g members = do
  throw_if (not (g.admin_id == admin)) forbidden
  throw_if (not (length members == g.member_slots)) slots_not_filled
  throw_if (not (is_draft g.status)) group_not_draft
  modify (start_group group)
  modify (open_contributions g group 1 members)

unfoldable pub activate : ℕ → ℕ → Tx Db (Unit {0})
unfolding activate_group find_group
activate admin group db =
    (or_throw (find_group group db.groups) group_not_found >>= λ g.
    activate_group admin group g (active_members group db.members))
      db
