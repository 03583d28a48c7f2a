-- ===== src/Reserve/Cover/Effect.antt =====
-- What covering a missed contribution does to the reserve, the ledger and the contribution.
use myturn_webportal.Prelude.{
  ℕ, ◌≡◌, refl, sym, ap, ◌∙◌, inl, inr, Bool, true, false, Option, none, some, arith, Bool-cases,
  ok, ◌≤◌, leb, min,
}
use mathlib.Core.Option.{some-injective}
use myturn_webportal.Prelude.Int.{pos, ◌+ℤ◌}
use myturn_webportal.Ledger.Account.{AccountKey, key_eq, member_wallet_reserved, group_pool}
use myturn_webportal.Ledger.Accounts.{get_balance}
use myturn_webportal.Ledger.Moves.{move_between-balance}
use myturn_webportal.Ledger.Posting.Effect.{delta_on}
use myturn_webportal.Ledger.Posting.Transfer.{transfer_lines}
use myturn_webportal.Store.Rows.{Reserve, Contribution, ContributionStatus, DefaultCoverage}
use myturn_webportal.Store.Lemmas.{find_first-holds, find_first-update}
use myturn_webportal.Store.{Db}
use myturn_webportal.Reserve.Backing.{
  IsAccounted, IsConsistent, drain-IsConsistent, duplicate-IsConsistent,
}
use myturn_webportal.Reserve.Split.{ReserveConfig}
use myturn_webportal.Reserve.Release.{find_active_reserve}
use myturn_webportal.Reserve.Cover.{
  CoverParams, CoverResult, covered, find_contribution, find_coverage, missed, cover_amount,
  cover_key, after_cover, coverage_or_none, cover_default_from_reserve_in_tx, paid_in_full,
}
use myturn_webportal.Reserve.Cover.Cases.{Transferred, IsOld, cover-cases}

cover_row-IsAccounted :
    (c : Contribution) (r : Reserve) → IsAccounted r → IsAccounted (after_cover c r r)
cover_row-IsAccounted c r h = ground arith

cover_amount-le : (c : Contribution) (r : Reserve) → cover_amount c r ≤ r.remaining_reserve_amount
cover_amount-le c r = ground arith

-- Covering a missed contribution keeps the reserves consistent (ids unique, every reserve accounted
-- for to the last unit, and every reserved wallet holding what remains of its owner's reserves).
pub cover_default-IsConsistent :
    (config : ReserveConfig) (params : CoverParams) (db : Db) {res : CoverResult} {db' : Db}
    → IsConsistent db
    → cover_default_from_reserve_in_tx config params db ≡ ok (res, db')
    → IsConsistent db'
unfolding find_active_reserve
cover_default-IsConsistent config params db {res} {db'} consistent h =
    elim (cover-cases config params db h) [
      | inl (same, _) ↦ rw same consistent
      | inr (c, r, _, active, done) ↦
          let here = find_first-holds _ db.reserves active in
          let fits = cover_amount-le c r in
          elim (Bool-cases done.posted.duplicate) [
            | inl dup ↦
                duplicate-IsConsistent (cover_key params r) params.user_id
                  (group_pool params.group_id) (cover_amount c r) db db' done.transfer consistent
                  dup (rw dup at done.rows)
            | inr new ↦
                drain-IsConsistent (cover_key params r) params.user_id (group_pool params.group_id)
                  (cover_amount c r) db db' done.transfer consistent _ (after_cover c r) r new
                  (λ u. refl) active (ground arith) (λ x. (refl, refl)) (omega arith)
                  (cover_row-IsAccounted c r) (rw new at done.rows)
          ]
    ]

IsOld-is_no_cover :
    (amount : ℕ) (full : Bool)
    → ¬ IsOld (covered (record { amount = amount; fully_covered = full; duplicate = false }))
IsOld-is_no_cover amount full (inl e) = cc e
IsOld-is_no_cover amount full (inr (row, e)) = ground arith

coverage_or_none-IsOld : (o : Option DefaultCoverage) → IsOld (coverage_or_none o)
coverage_or_none-IsOld none = inl refl
coverage_or_none-IsOld (some row) = inr (row, refl)

new_cover_is_new :
    (params : CoverParams) (c : Contribution) (r : Reserve) (db db' : Db) {amount : ℕ} {full : Bool}
    (done : Transferred params c r db db'
      (covered (record { amount = amount; fully_covered = full; duplicate = false })))
    → (done.posted.duplicate ≡ false)
      × (amount ≡ cover_amount c r)
      × (full ≡ leb (missed c) (cover_amount c r))
new_cover_is_new params c r db db' {amount} {full} done = elim (Bool-cases done.posted.duplicate) [
  | inl dup ↦
      let e = rw dup at done.result in
      absurd (
        IsOld-is_no_cover amount full
          (rw e (coverage_or_none-IsOld (find_coverage (cover_key params r) db.coverages))))
  | inr new ↦ let e = rw new at done.result in (new, ground arith, ground arith)
]

module _ (config : ReserveConfig) (params : CoverParams) (db db' : Db) (c : Contribution)
    (r : Reserve) (amount : ℕ)
    (found : find_contribution params.contribution_id db.contributions ≡ some c)
    (active : find_active_reserve params.user_id params.group_id db.reserves ≡ some r) where
  -- A new coverage pays the group's pool out of the member's reserved wallet, and changes no other
  -- balance; its amount is the smaller of what was missed and what the reserve holds.
  pub cover_default-pays :
      {full : Bool}
      → cover_default_from_reserve_in_tx config params db
        ≡ ok (covered (record { amount = amount; fully_covered = full; duplicate = false }), db')
      → (k : AccountKey)
      → (amount ≡ min (missed c) r.remaining_reserve_amount)
        × (get_balance k db'.ledger
            ≡ get_balance k db.ledger
              +ℤ delta_on k (
                  transfer_lines
                    (member_wallet_reserved params.user_id)
                    (group_pool params.group_id)
                    (pos amount)))
  cover_default-pays {full} h k = elim (cover-cases config params db h) [
    | inl (_, old) ↦ absurd (IsOld-is_no_cover amount full old)
    | inr (c', r', found', active', done) ↦
        let (new, amount_is, _) = new_cover_is_new params c' r' db db' done in
        let c_same : c' ≡ c = some-injective _ _ (sym found' ∙ found) in
        let r_same : r' ≡ r = some-injective _ _ (sym active' ∙ active) in
        let balance =
          move_between-balance (cover_key params r') (member_wallet_reserved params.user_id)
            (group_pool params.group_id) (pos (cover_amount c' r')) db.ledger done.transfer k in
        (rw (← c_same, ← r_same, amount_is) (smaller c' r'), rw amount_is (rw new at balance))
  ]
    where
      smaller :
          (c : Contribution) (r : Reserve)
          → cover_amount c r ≡ min (missed c) r.remaining_reserve_amount
      smaller c r = ground arith

  -- A coverage that says it is full has paid all that was missed, and the contribution is PAID with
  -- all its days.
  cover_default-settles :
      cover_default_from_reserve_in_tx config params db
        ≡ ok (covered (record { amount = amount; fully_covered = true; duplicate = false }), db')
      → (amount ≡ missed c)
        × (find_contribution params.contribution_id db'.contributions
            ≡ some (record c {
              status = ContributionStatus.paid;
              paid_day_count = c.expected_day_count;
            }))
  unfolding find_contribution
  cover_default-settles h = elim (cover-cases config params db h) [
    | inl (_, old) ↦ absurd (IsOld-is_no_cover amount true old)
    | inr (c', r', found', active', done) ↦
        let (new, amount_is, full) = new_cover_is_new params c' r' db db' done in
        let c_same : c' ≡ c = some-injective _ _ (sym found' ∙ found) in
        let all_of_it : missed c' ≡ cover_amount c' r' = equal c' r' (sym full) in
        (
          amount_is ∙ sym all_of_it ∙ ap (λ x. missed x) c_same,
          rw (rw new at done.settled, sym full)
              (find_first-update (λ x. x.id) (paid_in_full c') params.contribution_id
                  db.contributions c (λ x. refl) found
                ∙ ap (λ x. some (paid_in_full x c)) c_same),
        )
  ]
    where
      equal :
          (c : Contribution) (r : Reserve)
          → leb (missed c) (cover_amount c r) ≡ true
          → missed c ≡ cover_amount c r
      equal c r h = ground arith
