-- ===== src/CycleRisk/Deposits/Escrow.antt =====
-- What ties the members' deposits to the escrow accounts, and a payment out of one of them.
use myturn_webportal.Prelude.{
  ℕ, ◌+◌, ◌≤◌, ◌≡◌, ◌≢◌, refl, sym, ap, ◌∙◌, inl, inr, true, false, some, arith, ◌&&◌,
  if◌then◌else◌, Bool-cases, ◌==◌, ==_iff, All, ok,
}
use myturn_webportal.Prelude.Int.{ℤ, pos, ◌+ℤ◌, ◌≤ℤ◌, neg, int_laws}
use myturn_webportal.Ledger.Account.{
  AccountKey, key_beq, key_beq_iff, is_external, member_deposit_escrow,
}
use myturn_webportal.Ledger.Accounts.{get_balance, get_balance-IsSolvent}
use myturn_webportal.Ledger.Balances.{move_between-other}
use myturn_webportal.Ledger.Moves.{
  opened, move_between, move_between-balance, move_between-IsSolvent, move_between-new,
  move_between_succeeds,
}
use myturn_webportal.Ledger.Posting.Effect.{delta_on}
use myturn_webportal.Ledger.Posting.Journal.{
  IdempotencyKey, escrow_migration, deposit_forfeit, deposit_release,
}
use myturn_webportal.Ledger.Posting.Solvency.{IsSolvent}
use myturn_webportal.Ledger.Posting.Transfer.{transfer_lines, transferred}
use myturn_webportal.Ledger.Posting.{Ledger, Posted}
use myturn_webportal.Store.Rows.{GroupMember, DepositStatus}
use myturn_webportal.Store.Lemmas.{
  sum_by, le-sum_by, HasUniqueIds, sum_by-update, HasUniqueIds-update, All-update-other,
}
use myturn_webportal.Store.{Db}
use myturn_webportal.CycleRisk.Deposits.{
  is_held, find_member, find_wallet, with_deposit, set_deposit,
}
use myturn_webportal.CycleRisk.Deposits.Secured.{
  IsUnused, IsMigratable, Migrated, secured, due-settled,
}

abbrev pub held_amount : ℕ → GroupMember → ℕ
held_amount user m = if is_held m.deposit_status && (m.user_id == user) then m.deposit_amount else 0

abbrev pub deposits_of : ℕ → Db → ℕ
deposits_of user db = sum_by (held_amount user) db.members

-- While a deposit is held, neither of the keys that end it has been used.
pub record IsOpen (l : Ledger) (m : GroupMember) : Type 0 where
  pub can_forfeit : is_held m.deposit_status ≡ true → IsUnused (deposit_forfeit m.id) l
  pub can_release : is_held m.deposit_status ≡ true → IsUnused (deposit_release m.id) l

-- Each escrow account holds (or will, once the legacy wallet is migrated) exactly the deposits that
-- its owner has in all the groups.
pub record IsEscrowed (db : Db) : Type 0 where
  pub unique_ids : HasUniqueIds (λ m. m.id) db.members
  pub deposits : (user : ℕ) → secured user db ≡ pos (deposits_of user db)
  pub migratable : (user : ℕ) → IsMigratable user db
  pub are_open : All (IsOpen db.ledger) db.members
  pub solvent : IsSolvent db.ledger.accounts

drained :
    (old new amount : ℕ)
    → new + amount ≡ old + 0
    → pos old +ℤ (neg (pos amount) +ℤ (pos 0 +ℤ pos 0)) ≡ pos new
drained old new amount e = omega int_laws

still : (b : ℤ) → b +ℤ (pos 0 +ℤ (pos 0 +ℤ pos 0)) ≡ b
still b = omega int_laws

untouched : (old new : ℕ) → new + 0 ≡ old + 0 → pos old ≡ pos new
untouched old new e = ap pos (omega arith)

-- A payment out of the escrow account of the owner of a held deposit, which ends it.
module _ (db db₁ : Db) (m : GroupMember) (key : IdempotencyKey) (to : AccountKey)
    (status : DepositStatus) (escrowed : IsEscrowed db)
    (found : find_member m.id db.members ≡ some m) (held : is_held m.deposit_status ≡ true)
    (positive : 1 ≤ m.deposit_amount) (migrated : Migrated m.user_id db db₁)
    (unused : IsUnused key db.ledger) (ends : is_held status ≡ false)
    (internal : is_external to ≡ false)
    (elsewhere : (u : ℕ) → key_beq to (member_deposit_escrow u) ≡ false)
    (no_migration : (u : ℕ) → escrow_migration u ≢ key)
    (other_forfeit : (i : ℕ) → i ≢ m.id → key ≢ deposit_forfeit i)
    (other_release : (i : ℕ) → i ≢ m.id → key ≢ deposit_release i) where
  unused₁ : IsUnused key db₁.ledger
  unused₁ = migrated.keys key (no_migration m.user_id) ∙ unused

  same_members : db₁.members ≡ db.members
  same_members = ap (λ (d : Db). d.members) migrated.rest

  enough : pos m.deposit_amount ≤ℤ get_balance (member_deposit_escrow m.user_id) db₁.ledger
  unfolding find_member
  enough =
      let mine : held_amount m.user_id m ≡ m.deposit_amount = rw held (ground arith) in
      rw (migrated.escrow, escrowed.deposits m.user_id)
        (omega (arith, mine, le-sum_by (held_amount m.user_id) _ db.members found))

  pub goes_through :
      (p : Posted) × (after : Ledger) × (move_between key
          (member_deposit_escrow m.user_id)
          to
          (pos m.deposit_amount)
          db₁.ledger
        ≡ ok (p, after))
  goes_through =
      let (p, after) =
        transferred key (member_deposit_escrow m.user_id) to (pos m.deposit_amount)
          (get_balance (member_deposit_escrow m.user_id) db₁.ledger) (get_balance to db₁.ledger)
          (opened (member_deposit_escrow m.user_id) to db₁.ledger) in
      (
        p,
        after,
        move_between_succeeds key (member_deposit_escrow m.user_id) to (pos m.deposit_amount)
            db₁.ledger unused₁
            (λ e.
              cc
                (elsewhere m.user_id, (key_beq_iff to (member_deposit_escrow m.user_id)).1 (sym e)))
            (omega arith) (inr enough)
            (inr (get_balance-IsSolvent to db₁.ledger migrated.solvent internal)),
      )

  module _ (p : Posted) (after : Ledger)
      (pays : move_between key
          (member_deposit_escrow m.user_id)
          to
          (pos m.deposit_amount)
          db₁.ledger
        ≡ ok (p, after)) where
    abbrev pub paid_db : Db
    paid_db = set_deposit status m.id (record db₁ { ledger = after })

    pub paid_balance :
        (k : AccountKey)
        → get_balance k paid_db.ledger
          ≡ get_balance k db₁.ledger
            +ℤ delta_on k
                (transfer_lines (member_deposit_escrow m.user_id) to (pos m.deposit_amount))
    paid_balance k =
        let is_new =
          move_between-new key (member_deposit_escrow m.user_id) to (pos m.deposit_amount)
            db₁.ledger pays unused₁ in
        rw is_new at (
          move_between-balance key (member_deposit_escrow m.user_id) to (pos m.deposit_amount)
            db₁.ledger pays k)

    kept-IsUnused :
        (other : IdempotencyKey)
        → key ≢ other
        → escrow_migration m.user_id ≢ other
        → IsUnused other db.ledger
        → IsUnused other paid_db.ledger
    kept-IsUnused other ne not_migration free =
        move_between-other key other (member_deposit_escrow m.user_id) to (pos m.deposit_amount)
          db₁.ledger ne pays
        ∙ migrated.keys other not_migration
        ∙ free

    own_deposits : secured m.user_id paid_db ≡ pos (deposits_of m.user_id paid_db)
    unfolding find_member
    own_deposits =
        let sums =
          sum_by-update (λ x. x.id) (held_amount m.user_id) _ (with_deposit status) db.members m
            escrowed.unique_ids found in
        let mine : (m.user_id == m.user_id) ≡ true = ground arith in
        let balance =
          rw (mine, elsewhere m.user_id, migrated.escrow, escrowed.deposits m.user_id) at
            (paid_balance (member_deposit_escrow m.user_id)) in
        due-settled (find_wallet m.user_id db₁.wallets)
          (get_balance (member_deposit_escrow m.user_id) paid_db.ledger) migrated.settled
        ∙ balance
        ∙ rw same_members (drained _ _ m.deposit_amount (rw (held, mine, ends) at sums))

    other_deposits :
        (u : ℕ) → (m.user_id == u) ≡ false → secured u paid_db ≡ pos (deposits_of u paid_db)
    unfolding find_member
    other_deposits u differ =
        let sums =
          sum_by-update (λ x. x.id) (held_amount u) _ (with_deposit status) db.members m
            escrowed.unique_ids found in
        let ne : m.user_id ≢ u = ground arith in
        let balance : get_balance (member_deposit_escrow u) paid_db.ledger
            ≡ get_balance (member_deposit_escrow u) db.ledger =
          (rw (differ, elsewhere u) at (paid_balance (member_deposit_escrow u)))
          ∙ still _
          ∙ migrated.balances (member_deposit_escrow u) refl differ in
        rw (balance, migrated.wallets u ne)
          (escrowed.deposits u ∙ rw same_members (untouched _ _ (rw (held, differ, ends) at sums)))

    paid_deposits : (u : ℕ) → secured u paid_db ≡ pos (deposits_of u paid_db)
    paid_deposits u = elim (Bool-cases (m.user_id == u)) [
      | inl same ↦ rw (← (==_iff m.user_id u).0 same) own_deposits
      | inr differ ↦ other_deposits u differ
    ]

    still-IsMigratable : (u : ℕ) → IsMigratable u paid_db
    still-IsMigratable u locked = elim (Bool-cases (m.user_id == u)) [
      | inl same ↦ absurd (migrated.settled (rw (← (==_iff m.user_id u).0 same) at locked))
      | inr differ ↦
          let ne : m.user_id ≢ u = ground arith in
          kept-IsUnused (escrow_migration u) (λ e. no_migration u (sym e)) (ground arith)
            (escrowed.migratable u (rw (migrated.wallets u ne) at locked))
    ]

    pub paid-IsEscrowed : IsEscrowed paid_db
    unfolding find_member
    paid-IsEscrowed = record {
      unique_ids = rw same_members (
          HasUniqueIds-update (λ x. x.id) (λ x. x.id == m.id) (with_deposit status) db.members
            (λ x. refl) escrowed.unique_ids);
      deposits = paid_deposits;
      migratable = still-IsMigratable;
      are_open = rw same_members (
          All-update-other (λ x. x.id) (IsOpen db.ledger) (IsOpen paid_db.ledger) _
            (with_deposit status) db.members m escrowed.unique_ids found
            (λ _. record {
              can_forfeit = λ still. cc (ends, still);
              can_release = λ still. cc (ends, still);
            })
            (λ x ne o. record {
              can_forfeit = λ still.
                  kept-IsUnused (deposit_forfeit x.id) (other_forfeit x.id ne) (ground arith)
                    (o.can_forfeit still);
              can_release = λ still.
                  kept-IsUnused (deposit_release x.id) (other_release x.id ne) (ground arith)
                    (o.can_release still);
            })
            escrowed.are_open);
      solvent =
          move_between-IsSolvent key (member_deposit_escrow m.user_id) to (pos m.deposit_amount)
            db₁.ledger migrated.solvent pays;
    }
