-- ===== src/Reserve/Cover/Cases.antt =====
-- The ways in which coverDefaultFromReserveInTx returns.
use myturn_webportal.Prelude.{
  ◌≡◌, ◌⊎◌, inl, inr, Bool, some, List, arith, if◌then◌else◌, Bool-cases, Option-cases, ◌==◌, ok,
  ◌||◌, leb,
}
use myturn_webportal.Txn.{>>=-eq-ok}
use myturn_webportal.Ledger.Account.{key_eq}
use myturn_webportal.Ledger.Posting.{Posted}
use myturn_webportal.Store.Rows.{Reserve, Contribution, DefaultCoverage}
use myturn_webportal.Store.Lemmas.{in_ledger-eq-ok}
use myturn_webportal.Store.{update_rows, Db, in_ledger}
use myturn_webportal.Reserve.Split.{ReserveConfig}
use myturn_webportal.Reserve.Release.{find_active_reserve}
use myturn_webportal.Reserve.Cover.{
  CoverParams, CoverResult, not_covered, find_contribution, find_coverage, missed, not_coverable,
  cover_key, after_cover, settle_contribution, record_cover, finish_cover, cover_transfer,
  cover_from, cover_reserve, new_cover, coverage_of, coverage_or_none,
  cover_default_from_reserve_in_tx,
}

abbrev pub cover_rows : Contribution → Reserve → Bool → List Reserve → List Reserve
cover_rows c r duplicate rows =
    if duplicate then rows else update_rows (λ x. x.id == r.id) (after_cover c r) rows

abbrev pub cover_settled :
    CoverParams → Contribution → Reserve → Bool → List Contribution → List Contribution
cover_settled params c r duplicate rows =
    if duplicate then rows else settle_contribution params c r rows

abbrev pub cover_done :
    CoverParams → Contribution → Reserve → Bool → List DefaultCoverage → CoverResult
cover_done params c r duplicate rows =
    if duplicate then coverage_or_none (find_coverage (cover_key params r) rows) else new_cover c r

pub record Transferred (params : CoverParams) (c : Contribution) (r : Reserve) (db db' : Db)
    (res : CoverResult) : Type 0 where
  pub posted : Posted
  pub transfer : cover_transfer params c r db.ledger ≡ ok (posted, db'.ledger)
  pub result : res ≡ cover_done params c r posted.duplicate db.coverages
  pub rows : db'.reserves ≡ cover_rows c r posted.duplicate db.reserves
  pub settled : db'.contributions ≡ cover_settled params c r posted.duplicate db.contributions
  pub members : db'.members ≡ db.members
  pub wallets : db'.wallets ≡ db.wallets

finish_cover-ok :
    (params : CoverParams) (c : Contribution) (r : Reserve) (p : Posted) (db db₁ : Db)
    {res : CoverResult} {db' : Db}
    → cover_transfer params c r db.ledger ≡ ok (p, db₁.ledger)
    → db₁ ≡ record db { ledger = db₁.ledger }
    → finish_cover params c r p.duplicate db₁ ≡ ok (res, db')
    → Transferred params c r db db' res
unfolding finish_cover record_cover
finish_cover-ok params c r p db db₁ {res} {db'} transfer same h = elim (Bool-cases p.duplicate) [
  | inl dup ↦
      let h₁ = rw dup at h in
      record {
        posted = p;
        transfer = cc;
        result = rw dup (ground arith);
        rows = rw dup (ground arith);
        settled = rw dup (ground arith);
        members = ground arith;
        wallets = ground arith;
      }
  | inr new ↦
      let h₁ = rw new at h in
      record {
        posted = p;
        transfer = cc;
        result = rw new (ground arith);
        rows = rw new (ground arith);
        settled = rw new (ground arith);
        members = ground arith;
        wallets = ground arith;
      }
]

cover_from-ok :
    (params : CoverParams) (c : Contribution) (r : Reserve) (db : Db) {res : CoverResult} {db' : Db}
    → cover_from params c r db ≡ ok (res, db')
    → Transferred params c r db db' res
unfolding cover_from
cover_from-ok params c r db {res} {db'} h =
    let (p, db₁, moved, h₁) =
      >>=-eq-ok (in_ledger (cover_transfer params c r)) (λ p. finish_cover params c r p.duplicate)
        db h in
    let (transfer, same) = in_ledger-eq-ok (cover_transfer params c r) db moved in
    finish_cover-ok params c r p db db₁ transfer same h₁

abbrev pub IsOld : CoverResult → Type 0
IsOld res = (res ≡ not_covered) ⊎ ((row : DefaultCoverage) × (res ≡ coverage_of row))

abbrev pub CoverCases : CoverParams → Db → Db → CoverResult → Type 0
CoverCases params db db' res =
    ((db' ≡ db) × IsOld res)
    ⊎ ((c : Contribution) × (r : Reserve) × (find_contribution params.contribution_id
            db.contributions
          ≡ some c)
        × (find_active_reserve params.user_id params.group_id db.reserves ≡ some r)
        × Transferred params c r db db' res)

cover_reserve-cases :
    (params : CoverParams) (c : Contribution) (db : Db) {res : CoverResult} {db' : Db}
    → find_contribution params.contribution_id db.contributions ≡ some c
    → cover_reserve params c (find_active_reserve params.user_id params.group_id db.reserves) db
      ≡ ok (res, db')
    → CoverCases params db db' res
unfolding cover_reserve
cover_reserve-cases params c db {res} {db'} found h =
    elim (Option-cases (find_active_reserve params.user_id params.group_id db.reserves)) [
      | inl missing ↦ let h₁ = rw missing at h in inl (ground arith, inl (ground arith))
      | inr (r, active) ↦
          let h₁ = rw active at h in
          elim (Option-cases (find_coverage (cover_key params r) db.coverages)) [
            | inr (row, old) ↦ let h₂ = rw old at h₁ in inl (ground arith, inr (row, ground arith))
            | inl unused ↦
                let h₂ = rw unused at h₁ in
                elim (Bool-cases (leb r.remaining_reserve_amount 0)) [
                  | inl empty ↦ let h₃ = rw empty at h₂ in inl (ground arith, inl (ground arith))
                  | inr holds ↦
                      inr (c, r, found, active, cover_from-ok params c r db (rw holds at h₂))
                ]
          ]
    ]

-- A call that returns left the database alone and covered nothing new, or transferred.
pub cover-cases :
    (config : ReserveConfig) (params : CoverParams) (db : Db) {res : CoverResult} {db' : Db}
    → cover_default_from_reserve_in_tx config params db ≡ ok (res, db')
    → CoverCases params db db' res
unfolding cover_default_from_reserve_in_tx
cover-cases config params db {res} {db'} h = elim (Bool-cases config.enabled) [
  | inr off ↦ let h₁ = rw off at h in inl (ground arith, inl (ground arith))
  | inl enabled ↦
      let h₁ = rw enabled at h in
      elim (Option-cases (find_contribution params.contribution_id db.contributions)) [
        | inl missing ↦ let h₂ = rw missing at h₁ in inl (ground arith, inl (ground arith))
        | inr (c, found) ↦
            let h₂ = rw found at h₁ in
            elim (Bool-cases (not_coverable params c || leb (missed c) 0)) [
              | inl idle ↦ let h₃ = rw idle at h₂ in inl (ground arith, inl (ground arith))
              | inr due ↦ cover_reserve-cases params c db found (rw due at h₂)
            ]
      ]
]
