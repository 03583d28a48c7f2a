-- ===== src/Payouts/Recipient.antt =====
-- The members of a group in their turns, and whom finalizeCycle pays.
use myturn_webportal.Prelude.{
  ℕ, Bool, true, false, Option, none, some, List, [], ◌∷◌, map, if◌then◌else◌, ◌==◌, not, ltb,
  find_first, Result, ok, err, group_not_found, no_recipient,
}
use myturn_webportal.Txn.{Tx, ◌>>=◌, lift, throw_if}
use myturn_webportal.Shared.Queue.{
  PayoutQueueStanding, PayoutQueueMember, PayoutRecipientSelection, select_payout_recipient,
}
use myturn_webportal.Store.Rows.{Group, GroupMember, MemberCycleStanding}
use myturn_webportal.Store.{Db}
use myturn_webportal.CycleRisk.Deposits.{is_cycle}
use myturn_webportal.CycleRisk.Compliance.{active_members}
use myturn_webportal.Payouts.Params.{FinalizeParams}

-- `orderBy: { turnOrder: "asc" }`
unfoldable pub insert_by_turn : GroupMember → List GroupMember → List GroupMember
insert_by_turn m [] = m ∷ []
insert_by_turn m (x ∷ xs) =
    if ltb x.turn_order m.turn_order then x ∷ insert_by_turn m xs else m ∷ x ∷ xs

unfoldable pub by_turn_order : List GroupMember → List GroupMember
unfolding insert_by_turn
by_turn_order [] = []
by_turn_order (m ∷ ms) = insert_by_turn m (by_turn_order ms)

unfoldable pub group_members : ℕ → Db → List GroupMember
unfolding by_turn_order
group_members group db = by_turn_order (active_members group db.members)

abbrev pub queue_standing : MemberCycleStanding → PayoutQueueStanding
queue_standing MemberCycleStanding.active = PayoutQueueStanding.active
queue_standing MemberCycleStanding.late = PayoutQueueStanding.late
queue_standing MemberCycleStanding.defaulted = PayoutQueueStanding.defaulted

abbrev pub queue_member : GroupMember → PayoutQueueMember
queue_member m = record {
  user_id = m.user_id;
  turn_order = m.turn_order;
  effective_payout_order = m.effective_payout_order;
  cycle_standing = queue_standing m.cycle_standing;
}

abbrev pub select_for : Group → ℕ → List GroupMember → Result PayoutRecipientSelection
select_for g cycle members =
    select_payout_recipient (map queue_member members) cycle g.allow_payout_override

-- `group.members.find((m) => m.userId === recipientUserId)`
abbrev pub member_of : List GroupMember → Option PayoutQueueMember → Option GroupMember
member_of members none = none
member_of members (some q) = find_first (λ m. m.user_id == q.user_id) members

abbrev pub is_some : Option PayoutQueueMember → Bool
is_some none = false
is_some (some _) = true

-- Before the transaction: a CYCLE group must have somebody to pay.
unfoldable pub peek_recipient : FinalizeParams → Option Group → Tx Db (Unit {0})
peek_recipient params none db = err group_not_found
peek_recipient params (some g) db =
    if is_cycle g.payout_mode
    then (lift (select_for g params.cycle_number (group_members g.id db)) >>= λ selection.
          throw_if (not (is_some selection.recipient)) no_recipient)
        db
    else ok (tt, db)
