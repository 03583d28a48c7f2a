-- ===== src/CycleRisk/Compliance/Sync.antt =====
-- The sync of a group, member by member.
use myturn_webportal.Prelude.{
  ℕ, ◌≡◌, refl, sym, ap, ◌∙◌, inl, inr, Option, none, some, List, [], ◌∷◌, arith, ◌==◌, ◌&&◌,
  Bool-cases, Option-cases, ok, All, find_first, filter_by,
}
use mathlib.Core.Option.{some-injective}
use myturn_webportal.Act
use myturn_webportal.Store.Rows.{GroupMember, Group, Contribution, MemberCycleStanding}
use myturn_webportal.Store.Filter.{found_by_id, All-filter_by}
use myturn_webportal.Store.Lemmas.{All-weaken}
use myturn_webportal.Store.{Db}
use myturn_webportal.Reserve.Completion.{find_group}
use myturn_webportal.Reserve.Split.{ReserveConfig}
use myturn_webportal.CycleRisk.Deposits.{is_defaulted, is_cycle, find_member}
use myturn_webportal.CycleRisk.Deposits.Escrow.{IsEscrowed}
use myturn_webportal.CycleRisk.Protection.{
  CycleNotices, is_paid, is_active_group, set_standing, with_standing, cycle_defaulted,
  admin_cycle_defaulted, on_contribution_fully_settled,
}
use myturn_webportal.CycleRisk.Safety.{relabel-IsEscrowed}
use myturn_webportal.CycleRisk.Compliance.{
  default_in_tx, tell, sync_paid, newly_defaulted, sync_unpaid, sync_member, sync_members,
  next_standing, last_of_user, active_members, cycle_contributions, sync_started,
  sync_group_compliance, sync_each, sync_all_active_cycle_groups, cycle_start_day,
}
use myturn_webportal.CycleRisk.Compliance.Escrow.{
  IsSafe, IsSafe-refl, Names, Names-keeps, set_standing-IsSafe, default_in_tx-IsSafe,
  transaction-IsSafe, continue-IsSafe,
}

settled-IsSafe :
    (i : ℕ) (db : Db) {db' : Db}
    → IsEscrowed db
    → on_contribution_fully_settled i db ≡ ok (tt, db')
    → IsSafe db db'
unfolding on_contribution_fully_settled
settled-IsSafe i db {db'} e h = elim (Option-cases (find_member i db.members)) [
  | inl missing ↦
      let h₁ = rw missing at h in
      let same : db ≡ db' = ground arith in rw (← same) (IsSafe-refl db e)
  | inr (m, found) ↦ elim (Bool-cases (is_defaulted m.cycle_standing)) [
    | inl bad ↦
        let h₁ = rw (found, bad) at h in
        let same : set_standing MemberCycleStanding.active i db ≡ db' = ground arith in
        rw (← same) (set_standing-IsSafe MemberCycleStanding.active i db e)
    | inr good ↦
        let h₁ = rw (found, good) at h in
        let same : db ≡ db' = ground arith in rw (← same) (IsSafe-refl db e)
  ]
]

sync_paid-IsSafe :
    (m : GroupMember) (s : MemberCycleStanding) (db : Db)
    → IsEscrowed db
    → IsSafe db (sync_paid m s db).1
unfolding sync_paid
sync_paid-IsSafe m MemberCycleStanding.defaulted db e =
    transaction-IsSafe (on_contribution_fully_settled m.id) db e
      (λ db' run. settled-IsSafe m.id db e run)
sync_paid-IsSafe m MemberCycleStanding.late db e =
    set_standing-IsSafe MemberCycleStanding.active m.id db e
sync_paid-IsSafe m MemberCycleStanding.active db e = IsSafe-refl db e

module _ (config : ReserveConfig) (notices : CycleNotices) (g : Group) where
  newly_defaulted-IsSafe :
      (m : GroupMember) (c : Contribution) (db : Db)
      → IsEscrowed db
      → Names m.id m.user_id db
      → IsSafe db (newly_defaulted config notices g m c db).1
  unfolding newly_defaulted
  newly_defaulted-IsSafe m c db e names =
      let db₁ = (Act.transaction (default_in_tx config notices m c) db).1 in
      let first : IsSafe db db₁ =
        transaction-IsSafe (default_in_tx config notices m c) db e
          (λ db' run. default_in_tx-IsSafe config notices m c db e names run) in
      let still = IsSafe-refl db₁ first.0 in
      let tell_admin = tell notices (admin_cycle_defaulted g.admin_id) in
      let tell_member = tell notices (cycle_defaulted m.user_id) in
      continue-IsSafe (λ s. Act.continue (λ _. tell_admin) (tell_member s)) db
        (Act.transaction (default_in_tx config notices m c) db) first
        (continue-IsSafe tell_admin db₁ (tell_member db₁) still still)

  sync_unpaid-IsSafe :
      (m : GroupMember) (c : Contribution) (next s : MemberCycleStanding) (db : Db)
      → IsEscrowed db
      → Names m.id m.user_id db
      → IsSafe db (sync_unpaid config notices g m c next s db).1
  unfolding sync_unpaid
  sync_unpaid-IsSafe m c next MemberCycleStanding.defaulted db e names = IsSafe-refl db e
  sync_unpaid-IsSafe m c MemberCycleStanding.defaulted MemberCycleStanding.active db e names =
      newly_defaulted-IsSafe m c db e names
  sync_unpaid-IsSafe m c MemberCycleStanding.defaulted MemberCycleStanding.late db e names =
      newly_defaulted-IsSafe m c db e names
  sync_unpaid-IsSafe m c MemberCycleStanding.late MemberCycleStanding.active db e names =
      set_standing-IsSafe MemberCycleStanding.late m.id db e
  sync_unpaid-IsSafe m c MemberCycleStanding.late MemberCycleStanding.late db e names =
      IsSafe-refl db e
  sync_unpaid-IsSafe m c MemberCycleStanding.active MemberCycleStanding.active db e names =
      set_standing-IsSafe MemberCycleStanding.active m.id db e
  sync_unpaid-IsSafe m c MemberCycleStanding.active MemberCycleStanding.late db e names =
      set_standing-IsSafe MemberCycleStanding.active m.id db e

  module _ (now : ℕ) where
    sync_member-IsSafe :
        (first : ℕ) (m : GroupMember) (o : Option Contribution) (db : Db)
        → IsEscrowed db
        → Names m.id m.user_id db
        → IsSafe db (sync_member config notices g first now m o db).1
    unfolding sync_member
    sync_member-IsSafe first m none db e names = IsSafe-refl db e
    sync_member-IsSafe first m (some c) db e names = elim (Bool-cases (is_paid c.status)) [
      | inl paid ↦ rw paid (sync_paid-IsSafe m m.cycle_standing db e)
      | inr owing ↦
          rw owing
            (sync_unpaid-IsSafe m c (next_standing g first now c) m.cycle_standing db e names)
    ]

    sync_members-IsSafe :
        (first : ℕ) (cs : List Contribution) (ms : List GroupMember) (db : Db)
        → IsEscrowed db
        → All (λ m. Names m.id m.user_id db) ms
        → IsSafe db (sync_members config notices g first now cs ms db).1
    unfolding sync_members
    sync_members-IsSafe first cs [] db e all = IsSafe-refl db e
    sync_members-IsSafe first cs (m ∷ ms) db e (names, all) =
        let o = last_of_user m.user_id cs none in
        let db₁ = (sync_member config notices g first now m o db).1 in
        let one : IsSafe db db₁ = sync_member-IsSafe first m o db e names in
        continue-IsSafe (sync_members config notices g first now cs ms) db
          (sync_member config notices g first now m o db) one
          (sync_members-IsSafe first cs ms db₁ one.0
            (All-weaken _ _ ms (λ x. Names-keeps x.id x.user_id db db₁ one.1) all))

    sync_started-IsEscrowed :
        (start : Option ℕ) (db : Db)
        → IsEscrowed db
        → IsEscrowed (sync_started config notices g now start db).1
    unfolding sync_started find_member
    sync_started-IsEscrowed none db e = e
    sync_started-IsEscrowed (some start) db e =
        let rows =
          All-filter_by (λ m. find_first (λ z. z.id == m.id) db.members ≡ some m)
            (λ m. m.group_id == g.id && m.is_active) db.members
            (found_by_id (λ m. m.id) db.members e.unique_ids) in
        (sync_members-IsSafe (cycle_start_day g start)
          (cycle_contributions g.id g.current_cycle db.contributions)
          (active_members g.id db.members) db e
          (All-weaken _ (λ m. Names m.id m.user_id db) (active_members g.id db.members)
            (λ m (here, _) x there.
              ap (λ (y : GroupMember). y.user_id) (some-injective _ _ (sym there ∙ here)))
            rows)).0

pub sync_group-IsEscrowed :
    (config : ReserveConfig) (notices : CycleNotices) (now group : ℕ) (db : Db)
    → IsEscrowed db
    → IsEscrowed (sync_group_compliance config notices now group db).1
unfolding sync_group_compliance
sync_group-IsEscrowed config notices now group db e =
    elim (Option-cases (find_group group db.groups)) [
      | inl missing ↦ rw missing e
      | inr (g, found) ↦ elim (Bool-cases (is_active_group g.status)) [
        | inr idle ↦ rw (found, idle) e
        | inl active ↦ elim (Bool-cases (is_cycle g.payout_mode)) [
          | inr daily ↦
              rw (found, active, daily)
                (relabel-IsEscrowed db (λ m. m.group_id == g.id && m.is_active)
                  (with_standing MemberCycleStanding.active) (λ x. refl) (λ x. refl) (λ x. refl)
                  (λ x. refl) e)
          | inl cycle ↦
              rw (found, active, cycle)
                (sync_started-IsEscrowed config notices g now g.start_day db e)
        ]
      ]
    ]

sync_each-IsEscrowed :
    (config : ReserveConfig) (notices : CycleNotices) (clock : ℕ → ℕ) (gs : List Group) (db : Db)
    → IsEscrowed db
    → IsEscrowed (sync_each config notices clock gs db)
unfolding sync_each
sync_each-IsEscrowed config notices clock [] db e = e
sync_each-IsEscrowed config notices clock (g ∷ gs) db e =
    sync_each-IsEscrowed config notices clock gs
      (sync_group_compliance config notices (clock g.id) g.id db).1
      (sync_group-IsEscrowed config notices (clock g.id) g.id db e)

-- The nightly sync of all groups, at any times, whatever notices fail and wherever the sync of a
-- group throws, leaves every escrow account with exactly the deposits that its owner still has held.
pub sync_all-IsEscrowed :
    (config : ReserveConfig) (notices : CycleNotices) (clock : ℕ → ℕ) (db : Db)
    → IsEscrowed db
    → IsEscrowed (sync_all_active_cycle_groups config notices clock db)
unfolding sync_all_active_cycle_groups
sync_all-IsEscrowed config notices clock db e =
    sync_each-IsEscrowed config notices clock
      (filter_by (λ g. is_active_group g.status && is_cycle g.payout_mode) db.groups) db e
