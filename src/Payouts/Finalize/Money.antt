-- ===== src/Payouts/Finalize/Money.antt =====
-- The money of a finalization, and what the next cycle starts with.
use myturn_webportal.Prelude.{
  ℕ, suc, ◌+◌, ◌≡◌, refl, sym, ap, ◌∙◌, inl, inr, Bool, true, some, none, List, [], ◌∷◌, arith,
  ◌==◌, ◌&&◌, ltb, length, Bool-cases, ok, Result,
}
use mathlib.Core.Option.{some-injective}
use myturn_webportal.Prelude.Int.{pos, ◌≤ℤ◌}
use myturn_webportal.Dict.{total}
use myturn_webportal.Ledger.Account.{key_eq, group_pool}
use myturn_webportal.Ledger.Accounts.{get_balance}
use myturn_webportal.Ledger.Posting.Journal.{cycle_finalize}
use myturn_webportal.Ledger.Posting.Solvency.{IsSolvent}
use myturn_webportal.Ledger.Posting.{find_transaction}
use myturn_webportal.Store.Rows.{Group, GroupMember}
use myturn_webportal.Store.{Db}
use myturn_webportal.Reserve.Completion.{FinalRelease, find_group}
use myturn_webportal.Reserve.Split.{ReserveConfig}
use myturn_webportal.Allocation.Finalization.{summary_for}
use myturn_webportal.Allocation.Finalization.Pool.{TakesPool, allocation-TakesPool}
use myturn_webportal.CycleRisk.Deposits.{is_cycle}
use myturn_webportal.CycleRisk.Compliance.{cycle_contributions}
use myturn_webportal.Payouts.Finalize.{Finalized, finalize_in_tx}
use myturn_webportal.Payouts.Advance.{
  finalization_of, record_payout, open_contributions, new_contribution, set_cycle, clear_late,
  advance,
}
use myturn_webportal.Payouts.Recipient.{group_members}
use myturn_webportal.Payouts.Params.{FinalizeParams}
use myturn_webportal.Payouts.Finalize.Steps.{Finished, finalize-ok}

-- A finalization that returns, of any cycle and the last one too, with all the deposits and reserves
-- that the last one gives back: the sum of all balances is the same, and no account but the
-- external one is below zero if none was before.
pub finalize-conserves :
    (config : ReserveConfig) (params : FinalizeParams) (db : Db) {res : Finalized} {db' : Db}
    → finalize_in_tx config params db ≡ ok (res, db')
    → IsSolvent db.ledger.accounts
    → (total db'.ledger.accounts ≡ total db.ledger.accounts) × IsSolvent db'.ledger.accounts
finalize-conserves config params db h solvent =
    let (sum, solvent') = (finalize-ok config params db h).paid.conserved in (sum, solvent' solvent)

ok-injective : {A : Type 0} {a b : A} → ◌≡◌ {A = Result A} (ok a) (ok b) → a ≡ b
ok-injective e = ground arith

-- What the allocation in a finalization has taken.
finalize-allocated :
    (config : ReserveConfig) (params : FinalizeParams) (db : Db) {res : Finalized} {db' : Db}
    (f : Finished config params db db' res)
    → find_transaction (cycle_finalize db.next_id) db.ledger.transactions ≡ none
    → TakesPool params.group_id res.summary db f.paid.mid
unfolding summary_for
finalize-allocated config params db {res} f unused =
    let n = length (group_members params.group_id db) in
    let (summary, summed, takes) =
      allocation-TakesPool config (finalization_of params f.group n f.recipient.user_id db.next_id)
        (record_payout params f.group f.recipient.user_id f.summary db) unused f.paid.allocated in
    let same : res.summary ≡ summary = f.paid.summed ∙ ok-injective (sym f.summed ∙ summed) in
    rw same takes

-- A finalization that returns has found the whole gross amount of the cycle in the group's pool, also
-- where it excuses members who are DEFAULTED and have not paid.
pub finalize-needs_pool :
    (config : ReserveConfig) (params : FinalizeParams) (db : Db) {res : Finalized} {db' : Db}
    → finalize_in_tx config params db ≡ ok (res, db')
    → find_transaction (cycle_finalize db.next_id) db.ledger.transactions ≡ none
    → pos res.summary.gross_pool_amount_minor ≤ℤ get_balance (group_pool params.group_id) db.ledger
finalize-needs_pool config params db h unused =
    (finalize-allocated config params db (finalize-ok config params db h) unused).0

-- Steps of a cycle that is not the last.
module _ (params : FinalizeParams) (g : Group) (members : List GroupMember) (db : Db)
    (going : ltb params.cycle_number g.member_slots ≡ true) where
  advance_going :
      {r : Bool × List FinalRelease} {db' : Db}
      → advance params g members db ≡ ok (r, db')
      → db'
        ≡ clear_late g params.group_id (
            open_contributions g params.group_id
              (suc params.cycle_number)
              members
              (set_cycle params.group_id (suc params.cycle_number) db))
  unfolding advance
  advance_going h = let h₁ = rw going at h in ground arith

clear_late-contributions :
    (g : Group) (group : ℕ) (db : Db)
    → ((clear_late g group db).contributions ≡ db.contributions)
      × ((clear_late g group db).ledger ≡ db.ledger)
clear_late-contributions g group db = elim (Bool-cases (is_cycle g.payout_mode)) [
  | inl cycle ↦ rw cycle (refl, refl)
  | inr daily ↦ rw daily (refl, refl)
]

open_contributions-ledger :
    (g : Group) (group cycle : ℕ) (ms : List GroupMember) (db : Db)
    → (open_contributions g group cycle ms db).ledger ≡ db.ledger
unfolding open_contributions
open_contributions-ledger g group cycle [] db = refl
open_contributions-ledger g group cycle (m ∷ ms) db =
    open_contributions-ledger g group cycle ms (record db {
      contributions = new_contribution g group cycle m db.next_id ∷ db.contributions;
      next_id = suc db.next_id;
    })

abbrev pub contribution_count : ℕ → ℕ → Db → ℕ
contribution_count group cycle db = length (cycle_contributions group cycle db.contributions)

-- One row for each member.
pub open_contributions-count :
    (g : Group) (group cycle : ℕ) (ms : List GroupMember) (db : Db)
    → contribution_count group cycle (open_contributions g group cycle ms db)
      ≡ length ms + contribution_count group cycle db
unfolding open_contributions
open_contributions-count g group cycle [] db = omega arith
open_contributions-count g group cycle (m ∷ ms) db =
    let next = record db {
      contributions = new_contribution g group cycle m db.next_id ∷ db.contributions;
      next_id = suc db.next_id;
    } in
    let mine : (group == group && cycle == cycle) ≡ true = ground arith in
    let one : contribution_count group cycle next ≡ suc (contribution_count group cycle db) =
      rw mine refl in
    omega (arith, open_contributions-count g group cycle ms next, one)

-- A finalization that returns, of a cycle that is not the group's last: the pool has paid exactly the
-- cycle's gross amount, which it held, and the platform has got its share of it.
pub finalize-TakesPool :
    (config : ReserveConfig) (params : FinalizeParams) (db : Db) (g : Group) {res : Finalized}
    {db' : Db}
    → finalize_in_tx config params db ≡ ok (res, db')
    → find_transaction (cycle_finalize db.next_id) db.ledger.transactions ≡ none
    → find_group params.group_id db.groups ≡ some g
    → ltb params.cycle_number g.member_slots ≡ true
    → TakesPool params.group_id res.summary db db'
finalize-TakesPool config params db g {res} {db'} h unused found going =
    let f = finalize-ok config params db h in
    let same_group : f.group ≡ g = some-injective _ _ (sym f.found ∙ found) in
    let members = group_members params.group_id db in
    let moved = set_cycle params.group_id (suc params.cycle_number) f.paid.mid in
    let opened =
      open_contributions f.group params.group_id (suc params.cycle_number) members moved in
    let after =
      advance_going params f.group members f.paid.mid (rw same_group going) f.paid.advanced_to.1 in
    let ledger : db'.ledger ≡ f.paid.mid.ledger =
      ap (λ (d : Db). d.ledger) after
      ∙ (clear_late-contributions f.group params.group_id opened).1
      ∙ open_contributions-ledger f.group params.group_id (suc params.cycle_number) members moved in
    rw ledger (finalize-allocated config params db f unused)
