-- ===== src/Ledger/Account.antt =====
-- The ledger accounts (ledger-account.keys.ts, ledger-account.service.ts). `accountKey` is unique
-- in the schema and every account is made by `getOrCreateByKey`, so the key stands for the row's
-- id. All callers leave the currency at its default, and a key has no currency here; the keys as
-- texts are in Ledger/Keys.antt.
use myturn_webportal.Prelude.{ℕ, ◌≡◌, ◌↔◌, Bool, true, false, arith, ◌&&◌, ◌==◌, Eq}

pub data AccountKey : Type 0 where
  platform_float myturn_revenue withdrawal_clearing system_external : AccountKey
  group_pool : ℕ → AccountKey
  member_wallet member_wallet_available member_wallet_reserved : ℕ → AccountKey
  member_deposit_escrow admin_earnings : ℕ → AccountKey

abbrev kind : AccountKey → ℕ
kind platform_float = 0
kind myturn_revenue = 1
kind withdrawal_clearing = 2
kind system_external = 3
kind (group_pool _) = 4
kind (member_wallet _) = 5
kind (member_wallet_available _) = 6
kind (member_wallet_reserved _) = 7
kind (member_deposit_escrow _) = 8
kind (admin_earnings _) = 9

abbrev owner : AccountKey → ℕ
owner (group_pool g) = g
owner (member_wallet u) = u
owner (member_wallet_available u) = u
owner (member_wallet_reserved u) = u
owner (member_deposit_escrow u) = u
owner (admin_earnings u) = u
owner _ = 0

abbrev pub key_beq : AccountKey → AccountKey → Bool
key_beq a b = (kind a == kind b) && (owner a == owner b)

pub key_beq_iff : (a b : AccountKey) → (key_beq a b ≡ true) ↔ (a ≡ b)
key_beq_iff a b = ground arith

instance abbrev pub key_eq : Eq AccountKey
key_eq = record { beq = key_beq; beq_iff = key_beq_iff }

-- `accountType === SYSTEM_EXTERNAL`, the one account that may go below zero.
abbrev pub is_external : AccountKey → Bool
is_external system_external = true
is_external _ = false
