-- ===== src/Groups/Membership/Replacement.antt =====
-- A DEFAULTED member is replaced: the turn, the deposit and what is owed go on.
use myturn_webportal.Prelude.{◌≡◌, ◌∷◌}
use myturn_webportal.Store.Rows.{Group, GroupMember}
use myturn_webportal.Store.{Db}
use myturn_webportal.CycleRisk.Deposits.Escrow.{IsEscrowed}
use myturn_webportal.Groups.Membership.{ReplaceParams, NewMember, set_left}
use myturn_webportal.Groups.Membership.Admission.{joined_row}

abbrev pub replacement : ReplaceParams → Group → GroupMember → NewMember
replacement params g old = record {
  group = g;
  user_id = params.new_user_id;
  turn_order = old.turn_order;
  effective_payout_order = old.effective_payout_order;
  now = params.now;
}

-- The database without the old member in it.
abbrev pub Replaced : ReplaceParams → Group → GroupMember → Db → Db → Type 0
Replaced params g old db db' =
    IsEscrowed db'
    × (db'.members
        ≡ joined_row (replacement params g old) db.next_id ∷ (set_left old.id db).members)
