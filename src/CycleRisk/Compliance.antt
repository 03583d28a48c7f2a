-- ===== src/CycleRisk/Compliance.antt =====
-- CycleComplianceService (cycle-compliance.service.ts): who is LATE or DEFAULTED, by the days that
-- have passed. Days are counted from 1970-01-01, where addDaysToIsoDate is an addition; a cycle
-- starts at noon of its first day, and a deadline is the last millisecond of its day.
pub mod Escrow
pub mod Sync
pub mod Default
use myturn_webportal.Prelude.{
  ℕ, ◌+◌, ◌-◌, ◌*◌, ◌/◌, Bool, true, false, Option, none, some, List, [], ◌∷◌, if◌then◌else◌, ◌==◌,
  ◌&&◌, not, filter_by, min, ltb, Result, ok, err, Error, notification_failed, throw_if,
}
use myturn_webportal.Act.{Act, ◌>>=◌, ◌>>◌, return, modify, lift, transaction}
use myturn_webportal.Txn
use myturn_webportal.Txn.{Tx}
use myturn_webportal.Store.Rows.{GroupMember, Group, GroupStatus, Contribution, MemberCycleStanding}
use myturn_webportal.Store.{Db, update_rows}
use myturn_webportal.Reserve.Completion.{find_group}
use myturn_webportal.Reserve.Split.{ReserveConfig}
use myturn_webportal.CycleRisk.Deposits.{is_defaulted, is_cycle, forfeit_deposit_for_defaulted}
use myturn_webportal.CycleRisk.Protection.{
  CycleNotice, CycleNotices, cycle_defaulted, admin_cycle_defaulted, payment_overdue, is_paid,
  is_active_group, set_standing, with_standing, on_contribution_fully_settled,
  on_member_newly_defaulted,
}

abbrev pub day_ms : ℕ
day_ms = 86400000

-- `startIso + (currentCycle - 1) * daysPerCycle`
abbrev pub cycle_start_day : Group → ℕ → ℕ
cycle_start_day g start = start + g.current_cycle * g.days_per_cycle - g.days_per_cycle

-- `Math.max(0, daysSince)`, in whole calendar days
abbrev pub days_since : ℕ → ℕ → ℕ
days_since first now = now / day_ms - first

abbrev pub default_deadline : Group → ℕ → Contribution → ℕ
default_deadline g first c =
    (first + c.expected_day_count + g.default_grace_days) * day_ms + 86399999

unfoldable pub next_standing : Group → ℕ → ℕ → Contribution → MemberCycleStanding
next_standing g first now c =
    if ltb (default_deadline g first c) now
    then MemberCycleStanding.defaulted
    else (if ltb c.paid_day_count (min c.expected_day_count (days_since first now))
        then MemberCycleStanding.late
        else MemberCycleStanding.active)

abbrev pub tell : CycleNotices → CycleNotice → Act Db (Unit {0})
tell notices n = lift (throw_if (not (notices n)) notification_failed)

-- The transaction of a new default.
unfoldable pub default_in_tx :
    ReserveConfig → CycleNotices → GroupMember → Contribution → Tx Db (Unit {0})
default_in_tx config notices m c =
    Txn.◌>>◌ (Txn.modify (set_standing MemberCycleStanding.defaulted m.id)) (
      Txn.◌>>◌
        (forfeit_deposit_for_defaulted
          (record { member_id = m.id; user_id = m.user_id; group_id = m.group_id }))
        (on_member_newly_defaulted config notices (record {
          member_id = m.id;
          user_id = m.user_id;
          group_id = m.group_id;
          contribution_id = c.id;
        })))

-- `m` is the row as it was read before the loop.
unfoldable pub sync_paid : GroupMember → MemberCycleStanding → Act Db (Unit {0})
sync_paid m MemberCycleStanding.defaulted = transaction (on_contribution_fully_settled m.id)
sync_paid m MemberCycleStanding.late = modify (set_standing MemberCycleStanding.active m.id)
sync_paid m MemberCycleStanding.active = return tt

unfoldable pub newly_defaulted :
    ReserveConfig → CycleNotices → Group → GroupMember → Contribution → Act Db (Unit {0})
unfolding default_in_tx
newly_defaulted config notices g m c = do
  transaction (default_in_tx config notices m c)
  tell notices (cycle_defaulted m.user_id)
  tell notices (admin_cycle_defaulted g.admin_id)

-- The standing that is due, then the one that the row has.
unfoldable pub sync_unpaid :
    ReserveConfig
    → CycleNotices
    → Group
    → GroupMember
    → Contribution
    → MemberCycleStanding
    → MemberCycleStanding
    → Act Db (Unit {0})
unfolding newly_defaulted
sync_unpaid config notices g m c next MemberCycleStanding.defaulted = return tt
sync_unpaid config notices g m c MemberCycleStanding.defaulted MemberCycleStanding.active =
    newly_defaulted config notices g m c
sync_unpaid config notices g m c MemberCycleStanding.defaulted MemberCycleStanding.late =
    newly_defaulted config notices g m c
sync_unpaid config notices g m c MemberCycleStanding.late MemberCycleStanding.active =
    modify (set_standing MemberCycleStanding.late m.id) >> tell notices (payment_overdue m.user_id)
sync_unpaid config notices g m c MemberCycleStanding.late MemberCycleStanding.late = return tt
sync_unpaid config notices g m c MemberCycleStanding.active MemberCycleStanding.active =
    modify (set_standing MemberCycleStanding.active m.id)
sync_unpaid config notices g m c MemberCycleStanding.active MemberCycleStanding.late =
    modify (set_standing MemberCycleStanding.active m.id)

unfoldable pub sync_member :
    ReserveConfig
    → CycleNotices
    → Group
    → ℕ
    → ℕ
    → GroupMember
    → Option Contribution
    → Act Db (Unit {0})
unfolding sync_paid sync_unpaid
sync_member config notices g first now m none = return tt
sync_member config notices g first now m (some c) =
    if is_paid c.status
    then sync_paid m m.cycle_standing
    else sync_unpaid config notices g m c (next_standing g first now c) m.cycle_standing

-- `new Map(contributions.map(...))`: the last row of a user stays.
unfoldable pub last_of_user : ℕ → List Contribution → Option Contribution → Option Contribution
last_of_user user [] found = found
last_of_user user (c ∷ cs) found =
    last_of_user user cs (if c.user_id == user then some c else found)

unfoldable pub sync_members :
    ReserveConfig
    → CycleNotices
    → Group
    → ℕ
    → ℕ
    → List Contribution
    → List GroupMember
    → Act Db (Unit {0})
unfolding sync_member last_of_user
sync_members config notices g first now contributions [] = return tt
sync_members config notices g first now contributions (m ∷ ms) =
    sync_member config notices g first now m (last_of_user m.user_id contributions none)
    >> sync_members config notices g first now contributions ms

abbrev pub active_members : ℕ → List GroupMember → List GroupMember
active_members group = filter_by λ m. m.group_id == group && m.is_active

abbrev pub cycle_contributions : ℕ → ℕ → List Contribution → List Contribution
cycle_contributions group cycle = filter_by λ c. c.group_id == group && c.cycle_number == cycle

-- `updateMany`
abbrev pub all_in_order : ℕ → Db → Db
all_in_order group db = record db {
  members =
      update_rows (λ m. m.group_id == group && m.is_active)
        (with_standing MemberCycleStanding.active) db.members;
}

unfoldable pub sync_started :
    ReserveConfig → CycleNotices → Group → ℕ → Option ℕ → Act Db (Unit {0})
unfolding sync_members
sync_started config notices g now none db = (ok tt, db)
sync_started config notices g now (some start) db =
    sync_members config notices g (cycle_start_day g start) now
      (cycle_contributions g.id g.current_cycle db.contributions) (active_members g.id db.members)
      db

unfoldable pub sync_found : ReserveConfig → CycleNotices → ℕ → Option Group → Act Db (Unit {0})
unfolding sync_started
sync_found config notices now none db = (ok tt, db)
sync_found config notices now (some g) db =
    if is_active_group g.status
    then (if is_cycle g.payout_mode
        then sync_started config notices g now g.start_day db
        else (ok tt, all_in_order g.id db))
    else (ok tt, db)

unfoldable pub sync_group_compliance : ReserveConfig → CycleNotices → ℕ → ℕ → Act Db (Unit {0})
unfolding sync_found find_group
sync_group_compliance config notices now group db =
    sync_found config notices now (find_group group db.groups) db

-- What one group throws is logged, and the next is synced. Each has its own `new Date()`.
unfoldable pub sync_each : ReserveConfig → CycleNotices → (ℕ → ℕ) → List Group → Db → Db
sync_each config notices clock [] db = db
sync_each config notices clock (g ∷ gs) db =
    sync_each config notices clock gs (sync_group_compliance config notices (clock g.id) g.id db).1

unfoldable pub sync_all_active_cycle_groups : ReserveConfig → CycleNotices → (ℕ → ℕ) → Db → Db
unfolding sync_each
sync_all_active_cycle_groups config notices clock db =
    sync_each config notices clock
      (filter_by (λ g. is_active_group g.status && is_cycle g.payout_mode) db.groups) db
