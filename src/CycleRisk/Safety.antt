-- ===== src/CycleRisk/Safety.antt =====
-- What every step of the cycle's risk keeps: the escrow accounts hold the deposits, and the rows of
-- the members keep their owners.
use myturn_webportal.Prelude.{
  ℕ, ◌≡◌, ◌≢◌, refl, sym, ap, ◌∙◌, Bool, true, false, some, arith, if◌then◌else◌, ◌==◌, ok, leb,
  ◌+◌,
}
use myturn_webportal.Prelude.Int.{ℤ, pos, ◌+ℤ◌, int_laws, +ℤ_zero}
use myturn_webportal.Ledger.Account.{AccountKey, key_beq, member_deposit_escrow}
use myturn_webportal.Ledger.Accounts.{get_balance}
use myturn_webportal.Ledger.Balances.{move_between-other}
use myturn_webportal.Ledger.Moves.{move_between, move_between-balance, move_between-IsSolvent}
use myturn_webportal.Ledger.Posting.Effect.{delta_on}
use myturn_webportal.Ledger.Posting.Journal.{
  IdempotencyKey, escrow_migration, deposit_forfeit, deposit_release,
}
use myturn_webportal.Ledger.Posting.Transfer.{transfer_lines}
use myturn_webportal.Ledger.Posting.{Posted}
use myturn_webportal.Store.Rows.{GroupMember, DepositStatus}
use myturn_webportal.Store.Lemmas.{HasUniqueIds-update, All-weaken, sum_by-update, All-update}
use myturn_webportal.Store.Update.{sum_by-update_same, All-update_same, find_first-update_owner}
use myturn_webportal.Store.{Db, update_rows}
use myturn_webportal.CycleRisk.Deposits.{find_member, with_deposit, set_deposit}
use myturn_webportal.CycleRisk.Deposits.Secured.{IsUnused}
use myturn_webportal.CycleRisk.Deposits.Escrow.{IsOpen, IsEscrowed, held_amount}

-- Every member's row was there before, with the same owner.
abbrev pub KeepsOwners : Db → Db → Type 0
KeepsOwners db db' =
    (i : ℕ) (m : GroupMember)
    → find_member i db'.members ≡ some m
    → (m₀ : GroupMember) × (find_member i db.members ≡ some m₀) × (m₀.user_id ≡ m.user_id)

pub KeepsOwners-trans : (a b c : Db) → KeepsOwners a b → KeepsOwners b c → KeepsOwners a c
KeepsOwners-trans a b c first second i m found =
    let (m₁, found₁, same₁) = second i m found in
    let (m₀, found₀, same₀) = first i m₁ found₁ in (m₀, found₀, same₀ ∙ same₁)

pub KeepsOwners-same : (db db' : Db) → db'.members ≡ db.members → KeepsOwners db db'
KeepsOwners-same db db' same i m found = (m, rw same at found, refl)

pub KeepsOwners-update :
    (db db' : Db) (q : GroupMember → Bool) (f : GroupMember → GroupMember)
    → ((x : GroupMember) → (f x).id ≡ x.id)
    → ((x : GroupMember) → (f x).user_id ≡ x.user_id)
    → db'.members ≡ update_rows q f db.members
    → KeepsOwners db db'
unfolding find_member
KeepsOwners-update db db' q f same_id same_owner rows i m found =
    find_first-update_owner q f (λ x. x.id) (λ x. x.user_id) i db.members m same_id same_owner
      (rw rows at found)

-- A change of the members' rows that leaves their deposits alone.
pub relabel-IsEscrowed :
    (db : Db) (q : GroupMember → Bool) (f : GroupMember → GroupMember)
    → ((x : GroupMember) → (f x).id ≡ x.id)
    → ((x : GroupMember) → (f x).user_id ≡ x.user_id)
    → ((x : GroupMember) → (f x).deposit_amount ≡ x.deposit_amount)
    → ((x : GroupMember) → (f x).deposit_status ≡ x.deposit_status)
    → IsEscrowed db
    → IsEscrowed (record db { members = update_rows q f db.members })
relabel-IsEscrowed db q f same_id same_owner same_amount same_status e = record {
  unique_ids = HasUniqueIds-update (λ m. m.id) q f db.members same_id e.unique_ids;
  deposits = λ user.
      e.deposits user
      ∙ ap pos (
          sym (
            sum_by-update_same q f (held_amount user) db.members
              (λ x. rw (same_owner x, same_amount x, same_status x))));
  migratable = e.migratable;
  are_open =
      All-update_same q f (IsOpen db.ledger) db.members
        (λ x o. record {
          can_forfeit = λ h. rw (same_id x) (o.can_forfeit (rw (same_status x) at h));
          can_release = λ h. rw (same_id x) (o.can_release (rw (same_status x) at h));
        })
        e.are_open;
  solvent = e.solvent;
}

-- A transfer between other accounts, under another kind of key.
module _ (db db' : Db) (key : IdempotencyKey) (from to : AccountKey) (amount : ℤ) {p : Posted}
    (moved : move_between key from to amount db.ledger ≡ ok (p, db'.ledger))
    (same_members : db'.members ≡ db.members) (same_wallets : db'.wallets ≡ db.wallets)
    (not_from : (u : ℕ) → key_beq from (member_deposit_escrow u) ≡ false)
    (not_to : (u : ℕ) → key_beq to (member_deposit_escrow u) ≡ false)
    (no_migration : (u : ℕ) → key ≢ escrow_migration u)
    (no_forfeit : (i : ℕ) → key ≢ deposit_forfeit i)
    (no_release : (i : ℕ) → key ≢ deposit_release i) where
  other-IsUnused :
      (other : IdempotencyKey) → key ≢ other → IsUnused other db.ledger → IsUnused other db'.ledger
  other-IsUnused other ne free =
      move_between-other key other from to amount db.ledger ne moved ∙ free

  no_delta :
      (u : ℕ) (duplicate : Bool) (b : ℤ)
      → b
          +ℤ (if duplicate
              then pos 0
              else delta_on (member_deposit_escrow u) (transfer_lines from to amount))
        ≡ b
  no_delta u true b = +ℤ_zero b
  no_delta u false b = rw (not_from u, not_to u) (omega int_laws)

  same_escrow :
      (u : ℕ)
      → get_balance (member_deposit_escrow u) db'.ledger
        ≡ get_balance (member_deposit_escrow u) db.ledger
  same_escrow u =
      move_between-balance key from to amount db.ledger moved (member_deposit_escrow u)
      ∙ no_delta u p.duplicate _

  pub transfer-IsEscrowed : IsEscrowed db → IsEscrowed db'
  transfer-IsEscrowed e = record {
    unique_ids = rw same_members e.unique_ids;
    deposits = λ u. rw (same_wallets, same_escrow u, same_members) (e.deposits u);
    migratable = λ u locked.
        other-IsUnused (escrow_migration u) (no_migration u)
          (e.migratable u (rw same_wallets at locked));
    are_open = rw same_members (
        All-weaken (IsOpen db.ledger) (IsOpen db'.ledger) db.members
          (λ m o. record {
            can_forfeit =
                λ h. other-IsUnused (deposit_forfeit m.id) (no_forfeit m.id) (o.can_forfeit h);
            can_release =
                λ h. other-IsUnused (deposit_release m.id) (no_release m.id) (o.can_release h);
          })
          e.are_open);
    solvent = move_between-IsSolvent key from to amount db.ledger e.solvent moved;
  }

-- A held deposit of nothing, which is only marked.
pub empty-IsEscrowed :
    (db : Db) (m : GroupMember)
    → find_member m.id db.members ≡ some m
    → leb m.deposit_amount 0 ≡ true
    → IsEscrowed db
    → IsEscrowed (set_deposit DepositStatus.forfeited m.id db)
unfolding find_member
empty-IsEscrowed db m found empty e = record {
  unique_ids =
      HasUniqueIds-update (λ x. x.id) (λ x. x.id == m.id) (with_deposit DepositStatus.forfeited)
        db.members (λ x. refl) e.unique_ids;
  deposits = λ u.
      let sums =
        sum_by-update (λ x. x.id) (held_amount u) _ (with_deposit DepositStatus.forfeited)
          db.members m e.unique_ids found in
      e.deposits u ∙ ap pos (nothing_lost _ _ _ (nothing u) sums);
  migratable = e.migratable;
  are_open =
      All-update (λ x. x.id) (IsOpen db.ledger) _ (with_deposit DepositStatus.forfeited) db.members
        m e.unique_ids found (λ _. record { can_forfeit = λ h. cc h; can_release = λ h. cc h })
        e.are_open;
  solvent = e.solvent;
}
  where
    nothing : (u : ℕ) → held_amount u m ≡ 0
    nothing u = ground arith

    nothing_lost : (new old was : ℕ) → was ≡ 0 → new + was ≡ old + 0 → old ≡ new
    nothing_lost new old was z h = omega arith
