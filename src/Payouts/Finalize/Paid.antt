-- ===== src/Payouts/Finalize/Paid.antt =====
-- The payment in a finalization that returns: what it and the advance after it have written.
use myturn_webportal.Prelude.{
  ℕ, suc, ◌≡◌, refl, ap, ◌∙◌, inl, inr, Bool, List, [], ◌∷◌, arith, ◌==◌, ltb, length,
  if◌then◌else◌, Bool-cases, ok, Result,
}
use myturn_webportal.Txn.{>>=-eq-ok, return}
use myturn_webportal.Shared.Cycle.{CycleSummary}
use myturn_webportal.Ledger.Conserved.{Conserves, Conserves-same, Conserves-trans}
use myturn_webportal.Store.Frames.{IsFramed, >>=-IsFramed, return-IsFramed}
use myturn_webportal.Store.Rows.{Group, GroupStatus, GroupMember}
use myturn_webportal.Store.{Db, update_rows}
use myturn_webportal.Reserve.Completion.{
  FinalRelease, release_all_active_reserves_on_group_completed_in_tx,
}
use myturn_webportal.Reserve.Completion.Frame.{release_reserves-IsFramed}
use myturn_webportal.Allocation.Finalization.{Allocation, allocate_cycle_finalization_in_tx}
use myturn_webportal.Allocation.Finalization.Frame.{allocate-IsFramed}
use myturn_webportal.CycleRisk.Deposits.{is_cycle, release_all_held_deposits_for_group}
use myturn_webportal.CycleRisk.Deposits.Frame.{release_deposits-IsFramed}
use myturn_webportal.Reserve.Split.{ReserveConfig}
use myturn_webportal.Payouts.Finalize.{Finalized, pay_recipient, finalized}
use myturn_webportal.Payouts.Advance.{
  new_contribution, open_contributions, clear_late, set_cycle, complete_group, advance, new_payout,
  record_payout, finalization_of, release_group, completed_with,
}
use myturn_webportal.Payouts.Params.{FinalizeParams}

-- The group's row afterwards.
abbrev pub advanced : FinalizeParams → Group → Group → Group
advanced params g =
    if ltb params.cycle_number g.member_slots
    then (λ x. record x { current_cycle = suc params.cycle_number })
    else (λ x. record x { status = GroupStatus.completed })

pub open_contributions-keeps :
    (g : Group) (group cycle : ℕ) (ms : List GroupMember) (db : Db)
    → ((open_contributions g group cycle ms db).groups ≡ db.groups)
      × ((open_contributions g group cycle ms db).payouts ≡ db.payouts)
      × ((open_contributions g group cycle ms db).ledger ≡ db.ledger)
unfolding open_contributions
open_contributions-keeps g group cycle [] db = (refl, refl, refl)
open_contributions-keeps g group cycle (m ∷ ms) db =
    open_contributions-keeps g group cycle ms (record db {
      contributions = new_contribution g group cycle m db.next_id ∷ db.contributions;
      next_id = suc db.next_id;
    })

clear_late-keeps :
    (g : Group) (group : ℕ) (db : Db)
    → ((clear_late g group db).groups ≡ db.groups)
      × ((clear_late g group db).payouts ≡ db.payouts)
      × ((clear_late g group db).ledger ≡ db.ledger)
clear_late-keeps g group db = elim (Bool-cases (is_cycle g.payout_mode)) [
  | inl cycle ↦ rw cycle (refl, refl, refl)
  | inr daily ↦ rw daily (refl, refl, refl)
]

release_group-IsFramed : (params : FinalizeParams) → IsFramed (release_group params)
unfolding release_group
release_group-IsFramed params =
    >>=-IsFramed (release_all_held_deposits_for_group params.group_id) _
      (release_deposits-IsFramed params.group_id)
      (λ _.
        >>=-IsFramed (release_all_active_reserves_on_group_completed_in_tx params.group_id)
          (λ releases. return (completed_with releases)) (release_reserves-IsFramed params.group_id)
          (λ releases. return-IsFramed (completed_with releases)))

advance-ok :
    (params : FinalizeParams) (g : Group) (members : List GroupMember) (db : Db)
    (r : Bool × List FinalRelease) {db' : Db}
    → advance params g members db ≡ ok (r, db')
    → (db'.groups ≡ update_rows (λ x. x.id == params.group_id) (advanced params g) db.groups)
      × (db'.payouts ≡ db.payouts)
      × Conserves db.ledger db'.ledger
unfolding advance
advance-ok params g members db r {db'} h =
    elim (Bool-cases (ltb params.cycle_number g.member_slots)) [
      | inl going ↦
          let h₁ = rw going at h in
          let moved = set_cycle params.group_id (suc params.cycle_number) db in
          let opened =
            open_contributions g params.group_id (suc params.cycle_number) members moved in
          let same : clear_late g params.group_id opened ≡ db' = ground arith in
          let (groups, payouts, ledger) = clear_late-keeps g params.group_id opened in
          let (groups₁, payouts₁, ledger₁) =
            open_contributions-keeps g params.group_id (suc params.cycle_number) members moved in
          rw (← same, going)
            (
              groups ∙ groups₁,
              payouts ∙ payouts₁,
              Conserves-same db.ledger (clear_late g params.group_id opened).ledger
                  (ledger ∙ ledger₁),
            )
      | inr over ↦
          let (groups, payouts, _, conserved) =
            release_group-IsFramed params (complete_group params.group_id db) r db'
              (rw over at h) in
          rw over (groups, payouts, conserved)
    ]

-- What a finalization that returns has done, with the database before the advance.
pub record Paid (config : ReserveConfig) (params : FinalizeParams) (g : Group)
    (members : List GroupMember) (summary : CycleSummary) (recipient : GroupMember) (db db' : Db)
    (res : Finalized) : Type 0 where
  pub mid : Db
  pub allocation : Allocation
  pub allocated :
      allocate_cycle_finalization_in_tx config
        (finalization_of params g (length members) recipient.user_id db.next_id)
        (record_payout params g recipient.user_id summary db)
      ≡ ok (allocation, mid)
  pub advanced_to : (r : Bool × List FinalRelease) × (advance params g members mid ≡ ok (r, db'))
  pub payout : res.payout ≡ new_payout params recipient.user_id summary db.next_id
  pub summed : res.summary ≡ summary
  pub groups : db'.groups ≡ update_rows (λ x. x.id == params.group_id) (advanced params g) db.groups
  pub payouts : db'.payouts ≡ res.payout ∷ db.payouts
  pub conserved : Conserves db.ledger db'.ledger

ok_transport :
    {A : Type 0} (P : A → Db → Type 0) (a a' : A) (s s' : Db)
    → ◌≡◌ {A = Result (A × Db)} (ok (a, s)) (ok (a', s'))
    → P a s
    → P a' s'
ok_transport P a a' s s' e p =
    let first : a ≡ a' = ground arith in
    let second : s ≡ s' = ground arith in rw (← first, ← second) p

paid_through :
    (config : ReserveConfig) (params : FinalizeParams) (g : Group) (members : List GroupMember)
    (summary : CycleSummary) (recipient : GroupMember) (db mid after : Db) (allocation : Allocation)
    (r : Bool × List FinalRelease)
    → allocate_cycle_finalization_in_tx config
        (finalization_of params g (length members) recipient.user_id db.next_id)
        (record_payout params g recipient.user_id summary db)
      ≡ ok (allocation, mid)
    → advance params g members mid ≡ ok (r, after)
    → Paid config params g members summary recipient db after
        (finalized params summary recipient.user_id db.next_id allocation r)
paid_through config params g members summary recipient db mid after allocation r allocated moved =
    let recorded = record_payout params g recipient.user_id summary db in
    let input = finalization_of params g (length members) recipient.user_id db.next_id in
    let (groups, payouts, conserved) = advance-ok params g members mid r moved in
    let (groups₀, payouts₀, _, conserved₀) =
      allocate-IsFramed config input recorded allocation mid allocated in
    record {
      mid = mid;
      allocation = allocation;
      allocated = allocated;
      advanced_to = (r, moved);
      payout = refl;
      summed = refl;
      groups = groups ∙ ap (update_rows _ (advanced params g)) groups₀;
      payouts = payouts ∙ payouts₀;
      conserved = Conserves-trans db.ledger mid.ledger after.ledger conserved₀ conserved;
    }

pub pay_recipient-ok :
    (config : ReserveConfig) (params : FinalizeParams) (g : Group) (members : List GroupMember)
    (summary : CycleSummary) (recipient : GroupMember) (db : Db) {res : Finalized} {db' : Db}
    → pay_recipient config params g members summary recipient db ≡ ok (res, db')
    → Paid config params g members summary recipient db db' res
unfolding pay_recipient
pay_recipient-ok config params g members summary recipient db {res} {db'} h =
    let recorded = record_payout params g recipient.user_id summary db in
    let input = finalization_of params g (length members) recipient.user_id db.next_id in
    let (allocation, mid, allocated, h₁) =
      >>=-eq-ok (allocate_cycle_finalization_in_tx config input) _ recorded h in
    let (r, after, moved, h₂) = >>=-eq-ok (advance params g members) _ mid h₁ in
    ok_transport (λ x s. Paid config params g members summary recipient db s x)
      (finalized params summary recipient.user_id db.next_id allocation r) res after db' h₂
      (paid_through config params g members summary recipient db mid after allocation r allocated
        moved)
