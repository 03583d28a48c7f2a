-- ===== src/Payouts/Finalize/Steps.antt =====
-- What a finalization that returns has passed and done.
use myturn_webportal.Prelude.{
  ◌≡◌, sym, ◌∙◌, inl, inr, true, false, some, List, arith, length, Option-cases, ok, no_recipient,
}
use mathlib.Core.Path.{subst}
use myturn_webportal.Txn.{>>=-eq-ok, lift-ok, or_throw-ok, lift, or_throw}
use myturn_webportal.Prelude.Int.{pos}
use myturn_webportal.Shared.Cycle.{CycleSummary, summarize_cycle}
use myturn_webportal.Shared.Queue.{PayoutRecipientSelection}
use myturn_webportal.Store.Rows.{Group, GroupMember}
use myturn_webportal.Store.{Db}
use myturn_webportal.Reserve.Completion.{find_group}
use myturn_webportal.Reserve.Split.{ReserveConfig}
use myturn_webportal.CycleRisk.Protection.{is_active_group}
use myturn_webportal.CycleRisk.Compliance.{cycle_contributions}
use myturn_webportal.Payouts.Readiness.{assert_cycle_contributions_ready_for_finalize}
use myturn_webportal.Payouts.Finalize.{
  Finalized, has_payout, check_finalize, finalize_members, finalize_in_tx,
}
use myturn_webportal.Payouts.Recipient.{group_members, select_for, member_of}
use myturn_webportal.Payouts.Params.{FinalizeParams, member_cycle_payment_days}
use myturn_webportal.Payouts.Finalize.Paid.{Paid, pay_recipient-ok}

pub record Passed (params : FinalizeParams) (g : Group) (members : List GroupMember) (db : Db)
    : Type 0 where
  pub active : is_active_group g.status ≡ true
  pub current : g.current_cycle ≡ params.cycle_number
  pub full : length members ≡ g.member_slots
  pub rows :
      length (cycle_contributions params.group_id params.cycle_number db.contributions)
      ≡ length members
  pub ready :
      assert_cycle_contributions_ready_for_finalize
        (cycle_contributions params.group_id params.cycle_number db.contributions)
        members
      ≡ ok tt
  pub first : has_payout params.group_id params.cycle_number db.payouts ≡ false

check_finalize-ok :
    (params : FinalizeParams) (g : Group) (members : List GroupMember) (db : Db) {db' : Db}
    → check_finalize params g members db ≡ ok (tt, db')
    → (db' ≡ db) × Passed params g members db
unfolding check_finalize
check_finalize-ok params g members db {db'} h = (
  ground arith,
  record {
    active = ground arith;
    current = ground arith;
    full = ground arith;
    rows = ground arith;
    ready = ground arith;
    first = ground arith;
  },
)

pub record Finished (config : ReserveConfig) (params : FinalizeParams) (db db' : Db)
    (res : Finalized) : Type 0 where
  pub group : Group
  pub found : find_group params.group_id db.groups ≡ some group
  pub passed : Passed params group (group_members params.group_id db) db
  pub selection : PayoutRecipientSelection
  pub selected :
      select_for group params.cycle_number (group_members params.group_id db) ≡ ok selection
  pub recipient : GroupMember
  pub chosen : member_of (group_members params.group_id db) selection.recipient ≡ some recipient
  pub summary : CycleSummary
  pub summed :
      summarize_cycle params.cycle_number
        (pos group.contribution_amount)
        (pos (length (group_members params.group_id db)))
        (pos group.service_margin_bps)
        (pos (member_cycle_payment_days group))
      ≡ ok summary
  pub paid :
      Paid config params group (group_members params.group_id db) summary recipient db db' res

finalize_members-ok :
    (config : ReserveConfig) (params : FinalizeParams) (g : Group) (db : Db) {res : Finalized}
    {db' : Db}
    → find_group params.group_id db.groups ≡ some g
    → finalize_members config params g (group_members params.group_id db) db ≡ ok (res, db')
    → Finished config params db db' res
unfolding finalize_members
finalize_members-ok config params g db {res} {db'} found h =
    let members = group_members params.group_id db in
    let (_, db₁, checked, h₁) = >>=-eq-ok (check_finalize params g members) _ db h in
    let (same₁, passed) = check_finalize-ok params g members db checked in
    let (summary, db₂, summed, h₂) =
      >>=-eq-ok
        (lift (
          summarize_cycle params.cycle_number (pos g.contribution_amount) (pos (length members))
            (pos g.service_margin_bps) (pos (member_cycle_payment_days g))))
        _ db₁ h₁ in
    let (summed', same₂) = lift-ok _ db₁ summary summed in
    let (selection, db₃, selected, h₃) =
      >>=-eq-ok (lift (select_for g params.cycle_number members)) _ db₂ h₂ in
    let (selected', same₃) = lift-ok _ db₂ selection selected in
    let (recipient, db₄, chosen, h₄) =
      >>=-eq-ok (or_throw (member_of members selection.recipient) no_recipient) _ db₃ h₃ in
    let (chosen', same₄) = or_throw-ok _ no_recipient db₃ recipient chosen in
    let same : db₄ ≡ db = sym same₄ ∙ sym same₃ ∙ sym same₂ ∙ same₁ in
    record {
      group = g;
      found = found;
      passed = passed;
      selection = selection;
      selected = selected';
      recipient = recipient;
      chosen = chosen';
      summary = summary;
      summed = summed';
      paid =
          subst (λ x. Paid config params g members summary recipient x db' res) same
            (pay_recipient-ok config params g members summary recipient db₄ h₄);
    }

-- A finalization that returns has found its group, passed the guards, selected a member of the
-- group, and paid.
pub finalize-ok :
    (config : ReserveConfig) (params : FinalizeParams) (db : Db) {res : Finalized} {db' : Db}
    → finalize_in_tx config params db ≡ ok (res, db')
    → Finished config params db db' res
unfolding finalize_in_tx
finalize-ok config params db {res} {db'} h =
    elim (Option-cases (find_group params.group_id db.groups)) [
      | inl missing ↦ cc (rw missing at h)
      | inr (g, found) ↦ finalize_members-ok config params g db found (rw found at h)
    ]
