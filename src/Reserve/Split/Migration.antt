-- ===== src/Reserve/Split/Migration.antt =====
-- The migration of a member's legacy wallet into the available one.
use myturn_webportal.Prelude.{ℕ, ◌≡◌, refl, inl, inr, false, arith, ok, >>=-eq-ok, ◌||◌, Bool-cases}
use myturn_webportal.Prelude.Int.{ℤ, pos, leb_ℤ, ltb_ℤ}
use myturn_webportal.Ledger.Account.{member_wallet, member_wallet_available}
use myturn_webportal.Ledger.Accounts.{
  get_or_create, get_balance, get_or_create-balance, get_or_create-transactions,
}
use myturn_webportal.Ledger.Conserved.{
  Conserves-trans, Conserves-same, IsConserving, get_or_create_2-Conserves,
  post_transfer-IsConserving,
}
use myturn_webportal.Ledger.Posting.Journal.{wallet_migration}
use myturn_webportal.Ledger.Posting.{Ledger, post_transfer_in_tx}
use myturn_webportal.Ledger.Account.{AccountKey, key_beq}
use myturn_webportal.Prelude.Int.{◌+ℤ◌}
use myturn_webportal.Prelude.{◌≢◌, ap, ◌∙◌}
use myturn_webportal.Ledger.Balances.{post_journal-other, post_journal-elsewhere}
use myturn_webportal.Ledger.Posting.Effect.{moved}
use myturn_webportal.Ledger.Posting.Journal.{IdempotencyKey}
use myturn_webportal.Ledger.Posting.Transfer.{transfer_lines, post_transfer-ok}
use myturn_webportal.Ledger.Posting.{find_transaction}
use myturn_webportal.Reserve.Split.{migrate, ensure_legacy_wallet_migrated_in_tx}

migrate-IsConserving :
    (user : ℕ) (legacy available : ℤ) → IsConserving (migrate user legacy available)
unfolding migrate
migrate-IsConserving user legacy available l a l' h =
    elim (Bool-cases (leb_ℤ legacy (pos 0) || ltb_ℤ (pos 0) available)) [
      | inl nothing ↦ let h₁ = rw nothing at h in Conserves-same l l' (ground arith)
      | inr some_there ↦
          let key = wallet_migration user in
          let (p, moved, rest) =
            >>=-eq-ok
              (post_transfer_in_tx key (member_wallet user) (member_wallet_available user) legacy l)
              _ (rw some_there at h) in
          let same : p.1 ≡ l' = ground arith in
          rw (← same) (
            post_transfer-IsConserving key (member_wallet user) (member_wallet_available user)
              legacy l p.0 p.1 moved)
    ]

pub legacy_wallet-IsConserving :
    (user : ℕ) → IsConserving (ensure_legacy_wallet_migrated_in_tx user)
unfolding ensure_legacy_wallet_migrated_in_tx
legacy_wallet-IsConserving user l a l' h =
    let opened =
      get_or_create (member_wallet_available user) (get_or_create (member_wallet user) l) in
    Conserves-trans l opened l'
      (get_or_create_2-Conserves (member_wallet user) (member_wallet_available user) l)
      (migrate-IsConserving user (get_balance (member_wallet user) opened)
        (get_balance (member_wallet_available user) opened) opened a l' h)

migrate-elsewhere :
    (user : ℕ) (legacy available : ℤ) (l : Ledger) (k : AccountKey) (other : IdempotencyKey)
    {a : Unit {0}} {l' : Ledger}
    → key_beq (member_wallet user) k ≡ false
    → key_beq (member_wallet_available user) k ≡ false
    → wallet_migration user ≢ other
    → migrate user legacy available l ≡ ok (a, l')
    → (get_balance k l' ≡ get_balance k l)
      × (find_transaction other l'.transactions ≡ find_transaction other l.transactions)
unfolding migrate get_balance ◌+ℤ◌
migrate-elsewhere user legacy available l k other {a} {l'} not_legacy not_available ne h =
    elim (Bool-cases (leb_ℤ legacy (pos 0) || ltb_ℤ (pos 0) available)) [
      | inl nothing ↦
          let h₁ = rw nothing at h in let same : l ≡ l' = ground arith in rw (← same) (refl, refl)
      | inr some_there ↦
          let key = wallet_migration user in
          let lines = transfer_lines (member_wallet user) (member_wallet_available user) legacy in
          let (p, moved_p, rest) =
            >>=-eq-ok
              (post_transfer_in_tx key (member_wallet user) (member_wallet_available user) legacy l)
              _ (rw some_there at h) in
          let same : p.1 ≡ l' = ground arith in
          let posted =
            (post_transfer-ok key (member_wallet user) (member_wallet_available user) legacy l
              moved_p).2 in
          rw (← same) (
            post_journal-elsewhere key lines l k (rw (not_legacy, not_available) (ground arith))
                posted,
            post_journal-other key other lines l ne posted,
          )
    ]

-- It touches no account but the two wallets, and no key but its own.
pub legacy_wallet-elsewhere :
    (user : ℕ) (l : Ledger) (k : AccountKey) (other : IdempotencyKey) {a : Unit {0}} {l' : Ledger}
    → key_beq (member_wallet user) k ≡ false
    → key_beq (member_wallet_available user) k ≡ false
    → wallet_migration user ≢ other
    → ensure_legacy_wallet_migrated_in_tx user l ≡ ok (a, l')
    → (get_balance k l' ≡ get_balance k l)
      × (find_transaction other l'.transactions ≡ find_transaction other l.transactions)
unfolding ensure_legacy_wallet_migrated_in_tx
legacy_wallet-elsewhere user l k other not_legacy not_available ne h =
    let first = get_or_create (member_wallet user) l in
    let opened = get_or_create (member_wallet_available user) first in
    let (balance, keys) =
      migrate-elsewhere user (get_balance (member_wallet user) opened)
        (get_balance (member_wallet_available user) opened) opened k other not_legacy not_available
        ne h in
    (
      balance
          ∙ get_or_create-balance (member_wallet_available user) k first
          ∙ get_or_create-balance (member_wallet user) k l,
      keys
          ∙ ap (find_transaction other) (
              get_or_create-transactions (member_wallet_available user) first
              ∙ get_or_create-transactions (member_wallet user) l),
    )
