-- ===== src/CycleRisk/Deposits/Join.antt =====
-- The deposit of a new member comes into escrow with the member's row.
use myturn_webportal.Prelude.{
  ℕ, ◌+◌, ◌≡◌, ◌≢◌, refl, ap, ◌∙◌, inl, inr, true, false, ◌∷◌, arith, Bool-cases, ◌==◌, ==_iff, ok,
}
use mathlib.Core.Path.{subst}
use myturn_webportal.Prelude.Int.{ℤ, pos, ◌+ℤ◌, neg, int_laws}
use myturn_webportal.Ledger.Account.{AccountKey, system_external, member_deposit_escrow}
use myturn_webportal.Ledger.Accounts.{get_balance}
use myturn_webportal.Ledger.Balances.{move_between-other}
use myturn_webportal.Ledger.Moves.{
  move_between, move_between-balance, move_between-IsSolvent, move_between-new,
}
use myturn_webportal.Ledger.Posting.Effect.{delta_on}
use myturn_webportal.Ledger.Posting.Journal.{
  IdempotencyKey, escrow_migration, deposit_forfeit, deposit_release, deposit_hold,
}
use myturn_webportal.Ledger.Posting.Transfer.{transfer_lines}
use myturn_webportal.Ledger.Posting.{Ledger, Posted}
use myturn_webportal.Store.Rows.{GroupMember}
use myturn_webportal.Store.Lemmas.{IsAbsent, All-weaken}
use myturn_webportal.Store.{Db}
use myturn_webportal.CycleRisk.Deposits.{is_held, find_wallet}
use myturn_webportal.CycleRisk.Deposits.Secured.{
  IsUnused, IsMigratable, Migrated, secured, due-settled,
}
use myturn_webportal.CycleRisk.Deposits.Escrow.{IsOpen, IsEscrowed, deposits_of}

-- An id that no member has had, and a payment id that no deposit has had.
pub record IsNew (member payment : ℕ) (db : Db) : Type 0 where
  pub absent : IsAbsent (λ (x : GroupMember). x.id) member db.members
  pub hold : IsUnused (deposit_hold payment) db.ledger
  pub forfeit : IsUnused (deposit_forfeit member) db.ledger
  pub release : IsUnused (deposit_release member) db.ledger

gains : (b : ℤ) (amount : ℕ) → b +ℤ (neg (pos 0) +ℤ (pos amount +ℤ pos 0)) ≡ b +ℤ pos amount
gains b amount = omega int_laws

same : (b : ℤ) → b +ℤ (pos 0 +ℤ (pos 0 +ℤ pos 0)) ≡ b
same b = omega int_laws

added : (old amount : ℕ) → pos old +ℤ (pos 0 +ℤ (pos amount +ℤ pos 0)) ≡ pos (amount + old)
added old amount = omega int_laws

module _ (db mid : Db) (r : GroupMember) (payment : ℕ) (escrowed : IsEscrowed db)
    (new : IsNew r.id payment db) (held : is_held r.deposit_status ≡ true)
    (migrated : Migrated r.user_id db mid) (p : Posted) (after : Ledger)
    (pays : move_between
        (deposit_hold payment)
        system_external
        (member_deposit_escrow r.user_id)
        (pos r.deposit_amount)
        mid.ledger
      ≡ ok (p, after)) where
  abbrev pub joined_db : Db
  joined_db = record mid { ledger = after; members = r ∷ db.members }

  joined_balance :
      (k : AccountKey)
      → get_balance k after
        ≡ get_balance k mid.ledger
          +ℤ delta_on k (
              transfer_lines system_external
                (member_deposit_escrow r.user_id)
                (pos r.deposit_amount))
  joined_balance k =
      let unused : IsUnused (deposit_hold payment) mid.ledger =
        migrated.keys (deposit_hold payment) (ground arith) ∙ new.hold in
      let is_new =
        move_between-new (deposit_hold payment) system_external (member_deposit_escrow r.user_id)
          (pos r.deposit_amount) mid.ledger pays unused in
      rw is_new at (
        move_between-balance (deposit_hold payment) system_external
          (member_deposit_escrow r.user_id) (pos r.deposit_amount) mid.ledger pays k)

  kept-IsUnused :
      (other : IdempotencyKey)
      → deposit_hold payment ≢ other
      → escrow_migration r.user_id ≢ other
      → IsUnused other db.ledger
      → IsUnused other after
  kept-IsUnused other ne not_migration free =
      move_between-other (deposit_hold payment) other system_external
        (member_deposit_escrow r.user_id) (pos r.deposit_amount) mid.ledger ne pays
      ∙ migrated.keys other not_migration
      ∙ free

  own_deposits : secured r.user_id joined_db ≡ pos (deposits_of r.user_id joined_db)
  own_deposits =
      let mine : (r.user_id == r.user_id) ≡ true = ground arith in
      let balance =
        rw (mine, migrated.escrow, escrowed.deposits r.user_id) at
          (joined_balance (member_deposit_escrow r.user_id)) in
      due-settled (find_wallet r.user_id mid.wallets)
        (get_balance (member_deposit_escrow r.user_id) after) migrated.settled
      ∙ balance
      ∙ rw (held, mine) (added (deposits_of r.user_id db) r.deposit_amount)

  other_deposits :
      (u : ℕ) → (r.user_id == u) ≡ false → secured u joined_db ≡ pos (deposits_of u joined_db)
  other_deposits u differ =
      let ne : r.user_id ≢ u = ground arith in
      let balance : get_balance (member_deposit_escrow u) after
          ≡ get_balance (member_deposit_escrow u) db.ledger =
        (rw differ at (joined_balance (member_deposit_escrow u)))
        ∙ same _
        ∙ migrated.balances (member_deposit_escrow u) refl differ in
      rw (balance, migrated.wallets u ne, held, differ) (escrowed.deposits u ∙ ap pos (omega arith))

  joined_deposits : (u : ℕ) → secured u joined_db ≡ pos (deposits_of u joined_db)
  joined_deposits u = elim (Bool-cases (r.user_id == u)) [
    | inl mine ↦
        subst (λ v. secured v joined_db ≡ pos (deposits_of v joined_db))
          ((==_iff r.user_id u).0 mine) own_deposits
    | inr differ ↦ other_deposits u differ
  ]

  joined-IsMigratable : (u : ℕ) → IsMigratable u joined_db
  joined-IsMigratable u locked = elim (Bool-cases (r.user_id == u)) [
    | inl mine ↦ absurd (migrated.settled (rw (← (==_iff r.user_id u).0 mine) at locked))
    | inr differ ↦
        let ne : r.user_id ≢ u = ground arith in
        kept-IsUnused (escrow_migration u) (ground arith) (ground arith)
          (escrowed.migratable u (rw (migrated.wallets u ne) at locked))
  ]

  pub joined-IsEscrowed : IsEscrowed joined_db
  joined-IsEscrowed = record {
    unique_ids = (new.absent, escrowed.unique_ids);
    deposits = joined_deposits;
    migratable = joined-IsMigratable;
    are_open = (
      record {
        can_forfeit =
            λ h. kept-IsUnused (deposit_forfeit r.id) (ground arith) (ground arith) new.forfeit;
        can_release =
            λ h. kept-IsUnused (deposit_release r.id) (ground arith) (ground arith) new.release;
      },
      All-weaken (IsOpen db.ledger) (IsOpen after) db.members
          (λ x o. record {
            can_forfeit = λ still.
                kept-IsUnused (deposit_forfeit x.id) (ground arith) (ground arith)
                  (o.can_forfeit still);
            can_release = λ still.
                kept-IsUnused (deposit_release x.id) (ground arith) (ground arith)
                  (o.can_release still);
          })
          escrowed.are_open,
    );
    solvent =
        move_between-IsSolvent (deposit_hold payment) system_external
          (member_deposit_escrow r.user_id) (pos r.deposit_amount) mid.ledger migrated.solvent pays;
  }

-- A row without a deposit.
pub without-IsEscrowed :
    (db : Db) (r : GroupMember)
    → IsEscrowed db
    → IsAbsent (λ (x : GroupMember). x.id) r.id db.members
    → is_held r.deposit_status ≡ false
    → IsEscrowed (record db { members = r ∷ db.members })
without-IsEscrowed db r e absent none_held = record {
  unique_ids = (absent, e.unique_ids);
  deposits = λ u. e.deposits u ∙ ap pos (rw none_held (omega arith));
  migratable = e.migratable;
  are_open = (
    record { can_forfeit = λ h. cc (h, none_held); can_release = λ h. cc (h, none_held) },
    e.are_open,
  );
  solvent = e.solvent;
}
