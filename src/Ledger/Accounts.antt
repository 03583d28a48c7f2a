-- ===== src/Ledger/Accounts.antt =====
-- LedgerAccountService.getOrCreateByKey and getBalance (ledger-account.service.ts), and what they
-- leave alone. The public getOrCreate… methods are this one at a key.
use myturn_webportal.Prelude.{
  ◌≡◌, ap, ◌∙◌, inl, inr, false, Option, none, some, arith, if◌then◌else◌, Bool-cases, Option-cases,
}
use myturn_webportal.Prelude.Int.{ℤ, pos, +ℤ_zero, ◌≤ℤ◌}
use myturn_webportal.Dict.{lookup, insert, lookup-insert, total, total-insert_new}
use myturn_webportal.Ledger.Account.{AccountKey, key_eq, key_beq, key_beq_iff, is_external}
use myturn_webportal.Ledger.Posting.{Ledger}
use myturn_webportal.Ledger.Posting.Solvency.{IsSolvent, insert-IsSolvent}

create_missing : Option ℤ → AccountKey → Ledger → Ledger
create_missing (some _) k l = l
create_missing none k l = record l { accounts = insert k (pos 0) l.accounts }

unfoldable pub get_or_create : AccountKey → Ledger → Ledger
unfolding create_missing
get_or_create k l = create_missing (lookup k l.accounts) k l

-- `row?.balance ?? 0`
abbrev pub balance_or_zero : Option ℤ → ℤ
balance_or_zero none = pos 0
balance_or_zero (some b) = b

unfoldable pub get_balance : AccountKey → Ledger → ℤ
get_balance k l = balance_or_zero (lookup k l.accounts)

-- Afterwards the account is there; no other account, and no balance, has changed.
pub get_or_create-lookup :
    (k j : AccountKey) (l : Ledger)
    → lookup j (get_or_create k l).accounts
      ≡ (if key_beq k j then some (get_balance k l) else lookup j l.accounts)
unfolding get_or_create get_balance
get_or_create-lookup k j l = elim (Option-cases (lookup k l.accounts)) [
  | inl missing ↦ rw missing (lookup-insert k j (pos 0) l.accounts)
  | inr (b, found) ↦ elim (Bool-cases (key_beq k j)) [
    | inl same ↦ rw (found, same) (rw (← (key_beq_iff k j).0 same) found)
    | inr differ ↦ rw (found, differ)
  ]
]

pub get_or_create-balance :
    (k j : AccountKey) (l : Ledger) → get_balance j (get_or_create k l) ≡ get_balance j l
unfolding get_balance
get_or_create-balance k j l = elim (Bool-cases (key_beq k j)) [
  | inl same ↦
      rw (get_or_create-lookup k j l, same)
        (ap (λ i. balance_or_zero (lookup i l.accounts)) ((key_beq_iff k j).0 same))
  | inr differ ↦ rw (get_or_create-lookup k j l, differ)
]

pub get_or_create-total :
    (k : AccountKey) (l : Ledger) → total (get_or_create k l).accounts ≡ total l.accounts
unfolding get_or_create
get_or_create-total k l = elim (Option-cases (lookup k l.accounts)) [
  | inl missing ↦
      rw missing (total-insert_new k (pos 0) l.accounts missing ∙ +ℤ_zero (total l.accounts))
  | inr (b, found) ↦ rw found
]

pub get_or_create-transactions :
    (k : AccountKey) (l : Ledger) → (get_or_create k l).transactions ≡ l.transactions
unfolding get_or_create
get_or_create-transactions k l = elim (Option-cases (lookup k l.accounts)) [
  | inl missing ↦ rw missing
  | inr (b, found) ↦ rw found
]

pub get_or_create-IsSolvent :
    (k : AccountKey) (l : Ledger) → IsSolvent l.accounts → IsSolvent (get_or_create k l).accounts
unfolding get_or_create
get_or_create-IsSolvent k l solvent = elim (Option-cases (lookup k l.accounts)) [
  | inl missing ↦ rw missing (insert-IsSolvent k (pos 0) l.accounts solvent (λ _. omega arith))
  | inr (b, found) ↦ rw found solvent
]

pub get_balance-IsSolvent :
    (k : AccountKey) (l : Ledger)
    → IsSolvent l.accounts
    → is_external k ≡ false
    → pos 0 ≤ℤ get_balance k l
unfolding get_balance
get_balance-IsSolvent k l solvent internal = elim (Option-cases (lookup k l.accounts)) [
  | inl missing ↦ rw missing (omega arith)
  | inr (b, found) ↦ rw found (solvent k b found internal)
]
