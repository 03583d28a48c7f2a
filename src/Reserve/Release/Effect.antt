-- ===== src/Reserve/Release/Effect.antt =====
-- What a release does to the row, to the two wallets and to the consistency of the reserves.
use myturn_webportal.Prelude.{
  ℕ, ◌≡◌, refl, ◌⊎◌, inl, inr, Bool, false, some, List, arith, if◌then◌else◌, Bool-cases,
  Option-cases, ◌==◌, ok, ◌≤◌,
}
use myturn_webportal.Prelude.Int.{pos, ◌+ℤ◌}
use myturn_webportal.Txn.{>>=-eq-ok}
use myturn_webportal.Ledger.Account.{
  AccountKey, key_eq, member_wallet_reserved, member_wallet_available,
}
use myturn_webportal.Ledger.Accounts.{get_balance}
use myturn_webportal.Ledger.Moves.{move_between-balance}
use myturn_webportal.Ledger.Posting.Journal.{reserve_release}
use myturn_webportal.Ledger.Posting.Effect.{delta_on}
use myturn_webportal.Ledger.Posting.Transfer.{transfer_lines}
use myturn_webportal.Ledger.Posting.{Posted}
use myturn_webportal.Store.Rows.{Reserve}
use myturn_webportal.Store.Lemmas.{in_ledger-eq-ok, find_first-holds}
use myturn_webportal.Store.{update_rows, Db, in_ledger}
use myturn_webportal.Reserve.Backing.{
  IsAccounted, IsConsistent, drain-IsConsistent, duplicate-IsConsistent,
}
use myturn_webportal.Reserve.Split.{ReserveConfig}
use myturn_webportal.Reserve.Release.{
  finish_release, ReleaseParams, ReleaseResult, not_released, released, next_release, nothing_due,
  release_transfer, is_fully_released, after_release, release_from, find_active_reserve,
  try_release_on_payment_settled_in_tx,
}

-- The result and the state after the transfer.
abbrev pub release_done : Reserve → Bool → ReleaseResult
release_done r duplicate =
    if duplicate then not_released else released (next_release r) (is_fully_released r)

abbrev pub release_rows : Reserve → Bool → List Reserve → List Reserve
release_rows r duplicate rows =
    if duplicate then rows else update_rows (λ x. x.id == r.id) (after_release r) rows

pub record Transferred (params : ReleaseParams) (r : Reserve) (db db' : Db) (res : ReleaseResult)
    : Type 0 where
  pub posted : Posted
  pub transfer : release_transfer params r db.ledger ≡ ok (posted, db'.ledger)
  pub result : res ≡ release_done r posted.duplicate
  pub rows : db'.reserves ≡ release_rows r posted.duplicate db.reserves

finish_release-ok :
    (params : ReleaseParams) (r : Reserve) (p : Posted) (db db₁ : Db) {res : ReleaseResult}
    {db' : Db}
    → release_transfer params r db.ledger ≡ ok (p, db₁.ledger)
    → db₁ ≡ record db { ledger = db₁.ledger }
    → finish_release r p.duplicate db₁ ≡ ok (res, db')
    → Transferred params r db db' res
unfolding finish_release
finish_release-ok params r p db db₁ {res} {db'} transfer same h = elim (Bool-cases p.duplicate) [
  | inl dup ↦
      let h₁ = rw dup at h in
      record {
        posted = p;
        transfer = cc;
        result = rw dup (ground arith);
        rows = rw dup (ground arith);
      }
  | inr new ↦
      let h₁ = rw new at h in
      record {
        posted = p;
        transfer = cc;
        result = rw new (ground arith);
        rows = rw new (ground arith);
      }
]

pub release_from-ok :
    (params : ReleaseParams) (r : Reserve) (db : Db) {res : ReleaseResult} {db' : Db}
    → release_from params r db ≡ ok (res, db')
    → Transferred params r db db' res
unfolding release_from
release_from-ok params r db {res} {db'} h =
    let (p, db₁, moved, h₁) =
      >>=-eq-ok (in_ledger (release_transfer params r)) (λ p. finish_release r p.duplicate) db h in
    let (transfer, same) = in_ledger-eq-ok (release_transfer params r) db moved in
    finish_release-ok params r p db db₁ transfer same h₁

-- A call that returns either left the database alone, or transferred for a due reserve.
pub try_release-cases :
    (config : ReserveConfig) (params : ReleaseParams) (db : Db) {res : ReleaseResult} {db' : Db}
    → try_release_on_payment_settled_in_tx config params db ≡ ok (res, db')
    → ((res ≡ not_released) × (db' ≡ db))
      ⊎ ((r : Reserve) × (find_active_reserve params.user_id params.group_id db.reserves ≡ some r)
          × (nothing_due params r ≡ false)
          × Transferred params r db db' res)
unfolding try_release_on_payment_settled_in_tx
try_release-cases config params db {res} {db'} h = elim (Bool-cases config.enabled) [
  | inr off ↦ inl (ground arith)
  | inl enabled ↦
      let h₁ = rw enabled at h in
      elim (Option-cases (find_active_reserve params.user_id params.group_id db.reserves)) [
        | inl missing ↦ let h₂ = rw missing at h₁ in inl (ground arith)
        | inr (r, found) ↦
            let h₂ = rw found at h₁ in
            elim (Bool-cases (nothing_due params r)) [
              | inl none_due ↦ let h₃ = rw none_due at h₂ in inl (ground arith)
              | inr due ↦ inr (r, found, due, release_from-ok params r db (rw due at h₂))
            ]
      ]
]

-- A release moves its amount from the member's reserved wallet to the available one, and changes no
-- other balance.
try_release-moves :
    (config : ReserveConfig) (params : ReleaseParams) (db : Db) {amount : ℕ} {full : Bool}
    {db' : Db}
    → try_release_on_payment_settled_in_tx config params db ≡ ok (released amount full, db')
    → (k : AccountKey)
    → get_balance k db'.ledger
      ≡ get_balance k db.ledger
        +ℤ delta_on k (
            transfer_lines
              (member_wallet_reserved params.user_id)
              (member_wallet_available params.user_id)
              (pos amount))
try_release-moves config params db {amount} {full} h k =
    elim (try_release-cases config params db h) [
      | inl (nothing, _) ↦ ground arith
      | inr (r, found, due, done) ↦
          let balance =
            move_between-balance (reserve_release r.id params.payment_id)
              (member_wallet_reserved params.user_id) (member_wallet_available params.user_id)
              (pos (next_release r)) db.ledger done.transfer k in
          elim (Bool-cases done.posted.duplicate) [
            | inl dup ↦ let e = rw dup at done.result in ground arith
            | inr new ↦
                let e : amount ≡ next_release r = let e₁ = rw new at done.result in ground arith in
                rw e (rw new at balance)
          ]
    ]

release_row-IsAccounted :
    (r : Reserve)
    → next_release r ≤ r.remaining_reserve_amount
    → IsAccounted r
    → IsAccounted (after_release r r)
release_row-IsAccounted r enough h = omega arith

-- Releases keep the reserves consistent (ids unique, every reserve accounted for to the last unit,
-- and every reserved wallet holding what remains of its owner's reserves), as long as the amount that
-- is due is not more than what remains.
pub try_release-IsConsistent :
    (config : ReserveConfig) (params : ReleaseParams) (db : Db) {res : ReleaseResult} {db' : Db}
    → ((r : Reserve)
        → find_active_reserve params.user_id params.group_id db.reserves ≡ some r
        → next_release r ≤ r.remaining_reserve_amount)
    → IsConsistent db
    → try_release_on_payment_settled_in_tx config params db ≡ ok (res, db')
    → IsConsistent db'
unfolding find_active_reserve
try_release-IsConsistent config params db {res} {db'} enough c h =
    elim (try_release-cases config params db h) [
      | inl (_, same) ↦ rw same c
      | inr (r, found, due, done) ↦
          let here = find_first-holds _ db.reserves found in
          let fits = enough r found in
          elim (Bool-cases done.posted.duplicate) [
            | inl dup ↦
                duplicate-IsConsistent (reserve_release r.id params.payment_id) params.user_id
                  (member_wallet_available params.user_id) (next_release r) db db' done.transfer c
                  dup (rw dup at done.rows)
            | inr new ↦
                drain-IsConsistent (reserve_release r.id params.payment_id) params.user_id
                  (member_wallet_available params.user_id) (next_release r) db db' done.transfer c _
                  (after_release r) r new (λ u. refl) found (ground arith) (λ x. (refl, refl))
                  (omega arith) (release_row-IsAccounted r fits) (rw new at done.rows)
          ]
    ]
