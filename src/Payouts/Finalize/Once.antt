-- ===== src/Payouts/Finalize/Once.antt =====
-- A cycle is paid out once, and the group moves on.
use myturn_webportal.Prelude.{
  ℕ, suc, ◌≡◌, sym, ap, ◌∙◌, inl, inr, true, false, some, List, [], ◌∷◌, ◌++◌, arith, ◌==◌, ◌&&◌,
  ltb, if◌then◌else◌, Bool-cases, ok,
}
use myturn_webportal.Shared.Cycle.{CycleSummary}
use myturn_webportal.Store.Rows.{Group, GroupStatus, Payout}
use myturn_webportal.Store.Lemmas.{find_first-update}
use myturn_webportal.Store.{Db}
use myturn_webportal.Reserve.Completion.{find_group}
use myturn_webportal.Reserve.Split.{ReserveConfig}
use myturn_webportal.Payouts.Finalize.{Finalized, has_payout, finalize_in_tx}
use myturn_webportal.Payouts.Params.{FinalizeParams}
use myturn_webportal.Payouts.Finalize.Steps.{finalize-ok}
use myturn_webportal.Payouts.Finalize.Paid.{advanced}

has_payout-append :
    (group cycle : ℕ) (more : List Payout) (p : Payout) (rest : List Payout)
    → p.group_id ≡ group
    → p.cycle_number ≡ cycle
    → has_payout group cycle (more ++ (p ∷ rest)) ≡ true
has_payout-append group cycle [] p rest g c =
    let hit : (p.group_id == group && p.cycle_number == cycle) ≡ true = ground arith in rw hit
has_payout-append group cycle (x ∷ more) p rest g c =
    elim (Bool-cases (x.group_id == group && x.cycle_number == cycle)) [
      | inl hit ↦ rw hit
      | inr miss ↦ rw miss (has_payout-append group cycle more p rest g c)
    ]

-- Once a cycle of a group was finalized, no finalization of that cycle returns, by whomever and
-- whenever it is called, as long as no payout is deleted.
pub finalize-once :
    (config : ReserveConfig) (params : FinalizeParams) (db : Db) {res : Finalized} {db' : Db}
    → finalize_in_tx config params db ≡ ok (res, db')
    → (again : FinalizeParams) (later : Db) (more : List Payout) → again.group_id ≡ params.group_id
    → again.cycle_number ≡ params.cycle_number
    → later.payouts ≡ more ++ db'.payouts
    → ¬ ((r : Finalized × Db) × (finalize_in_tx config again later ≡ ok r))
finalize-once config params db {res} {db'} h again later more same_group same_cycle kept
      ((res₂, db₂), h₂) =
    let first = finalize-ok config params db h in
    let second = finalize-ok config again later h₂ in
    let group : res.payout.group_id ≡ again.group_id =
      ap (λ (p : Payout). p.group_id) first.paid.payout ∙ sym same_group in
    let cycle : res.payout.cycle_number ≡ again.cycle_number =
      ap (λ (p : Payout). p.cycle_number) first.paid.payout ∙ sym same_cycle in
    let there =
      has_payout-append again.group_id again.cycle_number more res.payout db.payouts group cycle in
    let paid_before : has_payout again.group_id again.cycle_number later.payouts ≡ true =
      rw (kept, first.paid.payouts) there in
    cc (paid_before, second.passed.first)

advanced-id : (params : FinalizeParams) (g x : Group) → (advanced params g x).id ≡ x.id
advanced-id params g x = elim (Bool-cases (ltb params.cycle_number g.member_slots)) [
  | inl going ↦ rw going
  | inr over ↦ rw over
]

advanced-own :
    (params : FinalizeParams) (g : Group)
    → advanced params g g ≡ (
        if ltb params.cycle_number g.member_slots
        then record g { current_cycle = suc params.cycle_number }
        else record g { status = GroupStatus.completed })
advanced-own params g = elim (Bool-cases (ltb params.cycle_number g.member_slots)) [
  | inl going ↦ rw going
  | inr over ↦ rw over
]

-- A finalization that returns was the first of its cycle, which was the group's current one. It has
-- added one payout, of the cycle's net amount; the group has gone to the next cycle, or is COMPLETED
-- if this was the last.
pub finalize-advances :
    (config : ReserveConfig) (params : FinalizeParams) (db : Db) {res : Finalized} {db' : Db}
    → finalize_in_tx config params db ≡ ok (res, db')
    → (g : Group) × (find_group params.group_id db.groups ≡ some g)
      × (g.current_cycle ≡ params.cycle_number)
      × (has_payout params.group_id params.cycle_number db.payouts ≡ false)
      × (db'.payouts ≡ res.payout ∷ db.payouts)
      × (res.payout.group_id ≡ params.group_id)
      × (res.payout.cycle_number ≡ params.cycle_number)
      × (res.payout.amount ≡ res.summary.net_after_margin_minor)
      × (find_group params.group_id db'.groups
          ≡ some (
              if ltb params.cycle_number g.member_slots
              then record g { current_cycle = suc params.cycle_number }
              else record g { status = GroupStatus.completed }))
unfolding find_group
finalize-advances config params db {res} {db'} h =
    let f = finalize-ok config params db h in
    let g = f.group in
    (
      g,
      f.found,
      f.passed.current,
      f.passed.first,
      f.paid.payouts,
      ap (λ (p : Payout). p.group_id) f.paid.payout,
      ap (λ (p : Payout). p.cycle_number) f.paid.payout,
      ap (λ (p : Payout). p.amount) f.paid.payout
          ∙ ap (λ (s : CycleSummary). s.net_after_margin_minor) (sym f.paid.summed),
      rw f.paid.groups (
            find_first-update (λ x. x.id) (advanced params g) params.group_id db.groups g
              (advanced-id params g) f.found)
          ∙ ap some (advanced-own params g),
    )
