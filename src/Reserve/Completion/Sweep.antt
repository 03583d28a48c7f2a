-- ===== src/Reserve/Completion/Sweep.antt =====
-- The sweep of a reserved wallet that no active reserve stands behind.
use myturn_webportal.Prelude.{
  ℕ, ◌≡◌, refl, sym, ◌∙◌, ◌⊎◌, inl, inr, true, false, none, arith, if◌then◌else◌, Bool-cases, ◌==◌,
  ok, Result,
}
use myturn_webportal.Prelude.Int.{ℤ, pos, ◌+ℤ◌, ◌≤ℤ◌, leb_ℤ, neg, int_laws, +ℤ_zero}
use myturn_webportal.Txn.{return, >>=-eq-ok}
use myturn_webportal.Ledger.Account.{AccountKey, member_wallet_reserved, member_wallet_available}
use myturn_webportal.Ledger.Accounts.{
  get_or_create, get_balance, get_or_create-balance, get_or_create-transactions,
}
use myturn_webportal.Ledger.Moves.{move_between, move_between-balance, move_between-new}
use myturn_webportal.Ledger.Posting.Journal.{orphan_sweep}
use myturn_webportal.Ledger.Posting.{Ledger, Posted, find_transaction}
use myturn_webportal.Ledger.Posting.Effect.{delta_on}
use myturn_webportal.Ledger.Posting.Transfer.{transfer_lines}
use myturn_webportal.Store.{Db, in_ledger}
use myturn_webportal.Store.Lemmas.{in_ledger-eq-ok}
use myturn_webportal.Reserve.Completion.{
  has_active_reserve, with_reserved, sweep_balance, sweep_orphaned_reserved_balance_in_tx,
}

emptied : (b : ℤ) → b +ℤ (neg b +ℤ (pos 0 +ℤ pos 0)) ≡ pos 0
emptied b = omega int_laws

filled : (b a : ℤ) → a +ℤ (pos 0 +ℤ (b +ℤ pos 0)) ≡ a +ℤ b
filled b a = omega int_laws

sweep_balance-ok :
    (user : ℕ) (balance : ℤ) (db db' : Db)
    → sweep_balance user balance db ≡ ok (tt, db')
    → ((leb_ℤ balance (pos 0) ≡ true) × (db' ≡ db))
      ⊎ ((p : Posted) × (move_between
              (orphan_sweep user)
              (member_wallet_reserved user)
              (member_wallet_available user)
              balance
              db.ledger
            ≡ ok (p, db'.ledger)))
unfolding sweep_balance
sweep_balance-ok user balance db db' h = elim (Bool-cases (leb_ℤ balance (pos 0))) [
  | inl nothing ↦ inl (nothing, let h₁ = rw nothing at h in ground arith)
  | inr positive ↦
      let f : Ledger → Result (Posted × Ledger) =
        move_between (orphan_sweep user) (member_wallet_reserved user)
          (member_wallet_available user) balance in
      let (p, db₁, moved, h₁) = >>=-eq-ok (in_ledger f) (λ _. return tt) db (rw positive at h) in
      let (transfer, _) = in_ledger-eq-ok f db moved in
      inr (p, let e : db₁ ≡ db' = ground arith in rw (← e) transfer)
]

module _ (user : ℕ) (db : Db) (idle : has_active_reserve user db.reserves ≡ false) where
  -- A first sweep that returns empties a reserved wallet that no active reserve stands behind, and
  -- whose balance is not negative, into the available wallet.
  sweep-empties :
      {db' : Db}
      → find_transaction (orphan_sweep user) db.ledger.transactions ≡ none
      → pos 0 ≤ℤ get_balance (member_wallet_reserved user) db.ledger
      → sweep_orphaned_reserved_balance_in_tx user db ≡ ok (tt, db')
      → (get_balance (member_wallet_reserved user) db'.ledger ≡ pos 0)
        × (get_balance (member_wallet_available user) db'.ledger
            ≡ get_balance (member_wallet_available user) db.ledger
              +ℤ get_balance (member_wallet_reserved user) db.ledger)
  unfolding sweep_orphaned_reserved_balance_in_tx
  sweep-empties {db'} unused nonneg h =
      let reserved = member_wallet_reserved user in
      let available = member_wallet_available user in
      let l = get_or_create reserved db.ledger in
      let opened_at : (k : AccountKey) → get_balance k l ≡ get_balance k db.ledger =
        λ k. get_or_create-balance reserved k db.ledger in
      let log : l.transactions ≡ db.ledger.transactions =
        get_or_create-transactions reserved db.ledger in
      let balance = get_balance reserved l in
      elim (sweep_balance-ok user balance (with_reserved user db) db' (rw idle at h)) [
        | inl (none_held, same) ↦
            let held = opened_at reserved in
            let zero : get_balance reserved db.ledger ≡ pos 0 =
              nothing_held (rw held at none_held) nonneg in
            rw (same, held, opened_at available, zero) (refl, sym (+ℤ_zero _))
        | inr (p, moved) ↦
            let new =
              move_between-new (orphan_sweep user) reserved available balance l moved
                (rw log unused) in
            let after_at : (k : AccountKey)
                → get_balance k db'.ledger
                  ≡ get_balance k l
                    +ℤ (if p.duplicate
                        then pos 0
                        else delta_on k (transfer_lines reserved available balance)) =
              λ k. move_between-balance (orphan_sweep user) reserved available balance l moved k in
            let same : (user == user) ≡ true = ground arith in
            let at_reserved = rw (new, same) at (after_at reserved) in
            let at_available = rw (new, same) at (after_at available) in
            (
              at_reserved ∙ emptied balance,
              at_available
                  ∙ filled balance (get_balance available l)
                  ∙ rw (opened_at reserved, opened_at available) refl,
            )
      ]
    where
      nothing_held : {b : ℤ} → leb_ℤ b (pos 0) ≡ true → pos 0 ≤ℤ b → b ≡ pos 0
      nothing_held {b} low high = ground arith
