-- ===== src/CycleRisk/Deposits/Migration.antt =====
-- The migration of a legacy wallet: it always goes through, once.
use myturn_webportal.Prelude.{
  ℕ, ◌≡◌, ◌≢◌, refl, sym, ap, ◌∙◌, inl, inr, true, false, some, arith, Bool-cases, Option-cases, ok,
}
use myturn_webportal.Prelude.Int.{ℤ, pos, ◌+ℤ◌, ◌-ℤ◌, leb_ℤ, int_laws}
use myturn_webportal.Txn.{>>=-ok, modify}
use myturn_webportal.Ledger.Account.{
  AccountKey, key_beq, key_beq_iff, system_external, member_deposit_escrow,
}
use myturn_webportal.Ledger.Accounts.{
  get_balance, get_or_create-balance, get_or_create-transactions, get_or_create-IsSolvent,
  get_balance-IsSolvent,
}
use myturn_webportal.Ledger.Balances.{move_between-other}
use myturn_webportal.Ledger.Moves.{
  opened, move_between, move_between-balance, move_between-IsSolvent, move_between-new,
  move_between_succeeds,
}
use myturn_webportal.Ledger.Posting.Effect.{delta_on}
use myturn_webportal.Ledger.Posting.Journal.{escrow_migration}
use myturn_webportal.Ledger.Posting.Solvency.{IsSolvent}
use myturn_webportal.Ledger.Posting.Transfer.{transfer_lines, transferred}
use myturn_webportal.Ledger.Posting.{Ledger, Posted, find_transaction}
use myturn_webportal.Store.Rows.{Wallet}
use myturn_webportal.Store.Lemmas.{in_ledger-ok, find_first-update, find_first-update_other}
use myturn_webportal.Store.{Db, in_ledger}
use myturn_webportal.CycleRisk.Deposits.{
  find_wallet, unlocked, unlock, with_escrow, migrate_gap,
  ensure_legacy_deposit_escrow_migrated_in_tx,
}
use myturn_webportal.CycleRisk.Deposits.Secured.{
  IsUnused, HasLocked, IsMigratable, Migrated, due-settled,
}

filled : (locked escrow : ℤ) → escrow +ℤ (pos 0 +ℤ (locked -ℤ escrow +ℤ pos 0)) ≡ locked
filled locked escrow = omega int_laws

untouched : (b : ℤ) → b +ℤ (pos 0 +ℤ (pos 0 +ℤ pos 0)) ≡ b
untouched b = omega int_laws

module _ (user : ℕ) (db : Db) (solvent : IsSolvent db.ledger.accounts) where
  unchanged-Migrated : ¬ HasLocked (find_wallet user db.wallets) → Migrated user db db
  unchanged-Migrated h = record {
    escrow = sym (
        due-settled (find_wallet user db.wallets)
          (get_balance (member_deposit_escrow user) db.ledger) h);
    settled = h;
    balances = λ k _ _. refl;
    wallets = λ u _. refl;
    keys = λ key _. refl;
    solvent = solvent;
    rest = refl;
  }

  module _ (w : Wallet) (found : find_wallet user db.wallets ≡ some w)
      (locked : leb_ℤ w.locked_balance (pos 0) ≡ false) where
    unlock-settled : ¬ HasLocked (find_wallet user (unlock user db).wallets)
    unfolding find_wallet
    unlock-settled h =
        let after =
          find_first-update (λ x. x.user_id) unlocked user db.wallets w (λ x. refl) found in
        cc (rw after at h)

    unlock-wallets :
        (u : ℕ) → user ≢ u → find_wallet u (unlock user db).wallets ≡ find_wallet u db.wallets
    unfolding find_wallet
    unlock-wallets u ne =
        find_first-update_other (λ x. x.user_id) unlocked user u db.wallets (λ x. refl) ne

    enough-Migrated :
        leb_ℤ (w.locked_balance -ℤ get_balance (member_deposit_escrow user) db.ledger) (pos 0)
          ≡ true
        → Migrated user db (unlock user (with_escrow user db))
    enough-Migrated enough = record {
      escrow =
          get_or_create-balance (member_deposit_escrow user) (member_deposit_escrow user) db.ledger
          ∙ rw (found, locked, enough);
      settled = unlock-settled;
      balances = λ k _ _. get_or_create-balance (member_deposit_escrow user) k db.ledger;
      wallets = unlock-wallets;
      keys = λ key _.
          ap (find_transaction key)
            (get_or_create-transactions (member_deposit_escrow user) db.ledger);
      solvent = get_or_create-IsSolvent (member_deposit_escrow user) db.ledger solvent;
      rest = refl;
    }

    abbrev gap : ℤ
    gap = w.locked_balance -ℤ get_balance (member_deposit_escrow user) db.ledger

    module _ (short : leb_ℤ gap (pos 0) ≡ false) (p : Posted) (after : Ledger)
        (moved : move_between
            (escrow_migration user)
            system_external
            (member_deposit_escrow user)
            gap
            (with_escrow user db).ledger
          ≡ ok (p, after))
        (is_new : p.duplicate ≡ false) where
      after-balance :
          (k : AccountKey)
          → get_balance k after
            ≡ get_balance k db.ledger
              +ℤ delta_on k (transfer_lines system_external (member_deposit_escrow user) gap)
      after-balance k =
          let step =
            move_between-balance (escrow_migration user) system_external
              (member_deposit_escrow user) gap (with_escrow user db).ledger moved k in
          rw (is_new, get_or_create-balance (member_deposit_escrow user) k db.ledger) at step

      short-Migrated : Migrated user db (unlock user (record db { ledger = after }))
      short-Migrated = record {
        escrow =
            let mine : key_beq (member_deposit_escrow user) (member_deposit_escrow user) ≡ true =
              (key_beq_iff (member_deposit_escrow user) (member_deposit_escrow user)).1 refl in
            (rw mine at (after-balance (member_deposit_escrow user)))
            ∙ filled w.locked_balance (get_balance (member_deposit_escrow user) db.ledger)
            ∙ sym (rw (found, locked, short));
        settled = unlock-settled;
        balances = λ k not_external not_escrow.
            (rw (not_external, not_escrow) at (after-balance k))
            ∙ untouched (get_balance k db.ledger);
        wallets = unlock-wallets;
        keys = λ key ne.
            move_between-other (escrow_migration user) key system_external
              (member_deposit_escrow user) gap (with_escrow user db).ledger ne moved
            ∙ ap (find_transaction key)
                (get_or_create-transactions (member_deposit_escrow user) db.ledger);
        solvent =
            move_between-IsSolvent (escrow_migration user) system_external
              (member_deposit_escrow user) gap (with_escrow user db).ledger
              (get_or_create-IsSolvent (member_deposit_escrow user) db.ledger solvent) moved;
        rest = refl;
      }

    -- What is short comes from outside, which may go below zero.
    short-migrates :
        leb_ℤ gap (pos 0) ≡ false
        → IsUnused (escrow_migration user) db.ledger
        → (db' : Db) × (migrate_gap user gap (with_escrow user db) ≡ ok (tt, db'))
          × Migrated user db db'
    unfolding migrate_gap
    short-migrates short unused =
        let from = (with_escrow user db).ledger in
        let (p, after) =
          transferred (escrow_migration user) system_external (member_deposit_escrow user) gap
            (get_balance system_external from) (get_balance (member_deposit_escrow user) from)
            (opened system_external (member_deposit_escrow user) from) in
        let free : IsUnused (escrow_migration user) from =
          ap (find_transaction (escrow_migration user))
            (get_or_create-transactions (member_deposit_escrow user) db.ledger)
          ∙ unused in
        let moved : move_between (escrow_migration user) system_external
              (member_deposit_escrow user) gap from
            ≡ ok (p, after) =
          move_between_succeeds (escrow_migration user) system_external (member_deposit_escrow user)
            gap from free (ground arith) (ground arith) (inl refl)
            (inr (
              get_balance-IsSolvent (member_deposit_escrow user) from
                (get_or_create-IsSolvent (member_deposit_escrow user) db.ledger solvent) refl)) in
        let is_new =
          move_between-new (escrow_migration user) system_external (member_deposit_escrow user) gap
            from moved free in
        (
          unlock user (record db { ledger = after }),
          rw short (
              >>=-ok
                (in_ledger (
                  move_between (escrow_migration user) system_external (member_deposit_escrow user)
                    gap))
                (λ _. modify (unlock user)) (with_escrow user db)
                (in_ledger-ok
                  (move_between (escrow_migration user) system_external (member_deposit_escrow user)
                    gap)
                  (with_escrow user db) moved)),
          short-Migrated short p after moved is_new,
        )

-- While every internal balance is at least 0, and nothing locked was migrated before, the migration
-- goes through, whatever the wallet has: the escrow account then holds the larger of what it held
-- and what was locked, and nothing is locked any more.
pub migrates :
    (user : ℕ) (db : Db)
    → IsSolvent db.ledger.accounts
    → IsMigratable user db
    → (db' : Db) × (ensure_legacy_deposit_escrow_migrated_in_tx user db ≡ ok (tt, db'))
      × Migrated user db db'
unfolding ensure_legacy_deposit_escrow_migrated_in_tx migrate_gap
migrates user db solvent migratable = elim (Option-cases (find_wallet user db.wallets)) [
  | inl missing ↦ (db, rw missing, unchanged-Migrated user db solvent (λ h. rw missing at h))
  | inr (w, found) ↦ elim (Bool-cases (leb_ℤ w.locked_balance (pos 0))) [
    | inl nothing ↦ (
      db,
      rw (found, nothing),
      unchanged-Migrated user db solvent (λ h. cc (nothing, rw found at h)),
    )
    | inr locked ↦
        let same =
          get_or_create-balance (member_deposit_escrow user) (member_deposit_escrow user)
            db.ledger in
        elim (Bool-cases (leb_ℤ (gap user db solvent w found locked) (pos 0))) [
          | inl enough ↦ (
            unlock user (with_escrow user db),
            rw (found, locked, same, enough),
            enough-Migrated user db solvent w found locked enough,
          )
          | inr short ↦
              let (db', run, m) =
                short-migrates user db solvent w found locked short
                  (migratable (rw found locked)) in
              (db', rw (found, locked, same) run, m)
        ]
  ]
]
