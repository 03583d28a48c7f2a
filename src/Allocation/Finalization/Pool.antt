-- ===== src/Allocation/Finalization/Pool.antt =====
-- An allocation takes the cycle's gross amount out of the group's pool, which must hold it.
use myturn_webportal.Prelude.{
  ℕ, ◌≡◌, ◌≢◌, refl, ap, ◌∙◌, inl, inr, Option, none, arith, leb, ok, Bool-cases, Result,
}
use myturn_webportal.Prelude.Int.{pos, ◌+ℤ◌, ◌≤ℤ◌, neg}
use myturn_webportal.Shared.Cycle.{CycleSummary}
use myturn_webportal.Ledger.Account.{key_eq, group_pool, myturn_revenue}
use myturn_webportal.Ledger.Accounts.{get_balance}
use myturn_webportal.Ledger.Posting.Journal.{cycle_finalize}
use myturn_webportal.Ledger.Posting.{Posted, find_transaction}
use myturn_webportal.Txn.{>>=-eq-ok, lift-ok, lift}
use myturn_webportal.Ledger.Posting.Journal.{wallet_migration}
use myturn_webportal.Reserve.Split.Migration.{legacy_wallet-elsewhere}
use myturn_webportal.Store.{Db, in_ledger}
use myturn_webportal.Store.Lemmas.{in_ledger-eq-ok}
use myturn_webportal.Reserve.Split.{
  ReserveConfig, ReserveParams, ReserveSplitResult, ensure_legacy_wallet_migrated_in_tx,
  create_reserve_on_payout_in_tx, insert_reserve,
}
use myturn_webportal.Allocation.Finalization.{
  FinalizationParams, reserve_for, Allocation, summary_for, split_for,
  allocate_cycle_finalization_in_tx, allocate,
}
use myturn_webportal.Allocation.Finalization.Effect.{allocate-ok}

-- Of a transaction that returns: the balances of the pool and of the revenue, and the key.
abbrev IsSame : FinalizationParams → Db → Db → Type 0
IsSame params db db' =
    (get_balance (group_pool params.group_id) db'.ledger
      ≡ get_balance (group_pool params.group_id) db.ledger)
    × (get_balance myturn_revenue db'.ledger ≡ get_balance myturn_revenue db.ledger)
    × (find_transaction (cycle_finalize params.payout_id) db'.ledger.transactions
        ≡ find_transaction (cycle_finalize params.payout_id) db.ledger.transactions)

migrated-IsSame :
    (params : FinalizationParams) (user : ℕ) (db : Db) {a : Unit {0}} {db' : Db}
    → in_ledger (ensure_legacy_wallet_migrated_in_tx user) db ≡ ok (a, db')
    → IsSame params db db'
migrated-IsSame params user db h =
    let run = (in_ledger-eq-ok (ensure_legacy_wallet_migrated_in_tx user) db h).0 in
    let key = cycle_finalize params.payout_id in
    let differ : wallet_migration user ≢ key = λ e. ground arith in
    let (pool, log) =
      legacy_wallet-elsewhere user db.ledger (group_pool params.group_id) key refl refl differ
        run in
    let (revenue, _) =
      legacy_wallet-elsewhere user db.ledger myturn_revenue key refl refl differ run in
    (pool, revenue, log)

inserted-IsSame :
    (params : FinalizationParams) (r : ReserveParams) (db : Db) {a : Option ℕ} {db' : Db}
    → insert_reserve r db ≡ ok (a, db')
    → db'.ledger ≡ db.ledger
unfolding insert_reserve
inserted-IsSame params r db {a} {db'} h = elim (Bool-cases (leb r.split.reserve_minor 0)) [
  | inl nothing ↦ let h₁ = rw nothing at h in ground arith
  | inr some_held ↦ let h₁ = rw some_held at h in ground arith
]

created-IsSame :
    (params : FinalizationParams) (r : ReserveParams) (db : Db) {a : Option ℕ} {db' : Db}
    → create_reserve_on_payout_in_tx r db ≡ ok (a, db')
    → IsSame params db db'
unfolding create_reserve_on_payout_in_tx
created-IsSame params r db {a} {db'} h =
    let (_, mid, opened, inserted) =
      >>=-eq-ok (in_ledger (ensure_legacy_wallet_migrated_in_tx r.user_id)) (λ _. insert_reserve r)
        db h in
    rw (inserted-IsSame params r mid inserted) (migrated-IsSame params r.user_id db opened)

-- What the group's pool has paid, and the platform's share.
abbrev pub TakesPool : ℕ → CycleSummary → Db → Db → Type 0
TakesPool group summary db db' =
    (pos summary.gross_pool_amount_minor ≤ℤ get_balance (group_pool group) db.ledger)
    × (get_balance (group_pool group) db'.ledger
        ≡ get_balance (group_pool group) db.ledger +ℤ neg (pos summary.gross_pool_amount_minor))
    × (get_balance myturn_revenue db'.ledger
        ≡ get_balance myturn_revenue db.ledger +ℤ pos summary.platform_share_minor)

posted-TakesPool :
    (params : FinalizationParams) (summary : CycleSummary) (split : ReserveSplitResult)
    (db opened posted db' : Db) {p : Posted}
    → find_transaction (cycle_finalize params.payout_id) db.ledger.transactions ≡ none
    → IsSame params db opened
    → in_ledger (allocate params summary split) opened ≡ ok (p, posted)
    → IsSame params posted db'
    → TakesPool params.group_id summary db db'
posted-TakesPool params summary split db opened posted db' unused (pool, revenue, log) h
      (pool₁, revenue₁, _) =
    let run = (in_ledger-eq-ok (allocate params summary split) opened h).0 in
    let (enough, taken, shared) =
      allocate-ok params summary split opened.ledger (log ∙ unused) run in
    (
      rw pool at enough,
      pool₁ ∙ taken ∙ ap (λ b. b +ℤ neg (pos summary.gross_pool_amount_minor)) pool,
      revenue₁ ∙ shared ∙ ap (λ b. b +ℤ pos summary.platform_share_minor) revenue,
    )

after_lift :
    (params : FinalizationParams) (db db₁ db₂ db₃ : Db)
    → db ≡ db₁
    → db₁ ≡ db₂
    → IsSame params db₂ db₃
    → IsSame params db db₃
after_lift params db db₁ db₂ db₃ e e₁ h = rw (e ∙ e₁) h

finished-IsSame :
    (params : FinalizationParams) (db db₁ db₂ : Db) (x y : Allocation)
    → IsSame params db db₁
    → ◌≡◌ {A = Result (Allocation × Db)} (ok (x, db₁)) (ok (y, db₂))
    → IsSame params db db₂
finished-IsSame params db db₁ db₂ x y h e = let same : db₁ ≡ db₂ = ground arith in rw (← same) h

-- The wallets of the recipient are migrated before, and once more with the reserve.
pub allocation-TakesPool :
    (config : ReserveConfig) (params : FinalizationParams) (db : Db) {res : Allocation} {db' : Db}
    → find_transaction (cycle_finalize params.payout_id) db.ledger.transactions ≡ none
    → allocate_cycle_finalization_in_tx config params db ≡ ok (res, db')
    → (summary : CycleSummary) × (summary_for params ≡ ok summary)
      × TakesPool params.group_id summary db db'
unfolding allocate_cycle_finalization_in_tx
allocation-TakesPool config params db {res} {db'} unused h =
    let user = params.recipient_user_id in
    let (summary, db₁, summed, h₁) = >>=-eq-ok (lift (summary_for params)) _ db h in
    let (summed', same₁) = lift-ok (summary_for params) db summary summed in
    let (split, db₂, divided, h₂) = >>=-eq-ok (lift (split_for config params summary)) _ db₁ h₁ in
    let (_, same₂) = lift-ok (split_for config params summary) db₁ split divided in
    let (_, db₃, opened, h₃) =
      >>=-eq-ok (in_ledger (ensure_legacy_wallet_migrated_in_tx user)) _ db₂ h₂ in
    let (p, db₄, posted, h₄) = >>=-eq-ok (in_ledger (allocate params summary split)) _ db₃ h₃ in
    let (id, db₅, created, h₅) =
      >>=-eq-ok (create_reserve_on_payout_in_tx (reserve_for params split)) _ db₄ h₄ in
    (
      summary,
      summed',
      posted-TakesPool params summary split db db₃ db₄ db' unused
          (after_lift params db db₁ db₂ db₃ same₁ same₂ (migrated-IsSame params user db₂ opened))
          posted
          (finished-IsSame params db₄ db₅ db' _ res
            (created-IsSame params (reserve_for params split) db₄ created) h₅),
    )
