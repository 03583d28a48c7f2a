-- ===== src/Ledger/Posting.antt =====
-- LedgerPostingService (ledger-posting.service.ts). A journal's reference, description and metadata
-- are texts that nothing reads back, and are left out.
pub mod Journal
pub mod Cases
pub mod Effect
pub mod Solvency
pub mod Idempotency
pub mod Transfer
use myturn_webportal.Prelude.{
  ℕ, Bool, true, false, Option, none, some, List, [], ◌∷◌, if◌then◌else◌, ltb, length, find_first,
  Error, Result, ok, err, ◌>>=◌, ◌>>◌, throw_if, or_throw, journal_too_short, unbalanced_journal,
  zero_delta, insufficient_balance, account_not_found, amount_not_positive, same_account, not, leb,
}
use myturn_webportal.Prelude.Int.{ℤ, pos, negsuc, ◌+ℤ◌, neg, ltb_ℤ, leb_ℤ, is_zero_ℤ}
use myturn_webportal.Dict.{Dict, lookup, insert}
use myturn_webportal.Ledger.Account.{AccountKey, key_eq, key_beq, is_external}
use Journal.{IdempotencyKey, journal_beq}

pub record PostingLine : Type 0 where
  pub account : AccountKey
  pub delta : ℤ

pub record LedgerLine : Type 0 where
  pub account : AccountKey
  pub delta : ℤ
  pub balance_after : ℤ

pub record LedgerTransaction : Type 0 where
  pub idempotency_key : IdempotencyKey
  pub lines : List LedgerLine

pub record Ledger : Type 0 where
  pub accounts : Dict AccountKey ℤ
  pub transactions : List LedgerTransaction

pub record Posted : Type 0 where
  pub transaction : LedgerTransaction
  pub duplicate : Bool

abbrev pub sum_deltas : List PostingLine → ℤ
sum_deltas [] = pos 0
sum_deltas (l ∷ ls) = l.delta +ℤ sum_deltas ls

-- `reduce` adds from the left.
add_deltas : ℤ → List PostingLine → ℤ
add_deltas acc [] = acc
add_deltas acc (l ∷ ls) = add_deltas (acc +ℤ l.delta) ls

unfoldable pub assert_balanced : List PostingLine → Result (Unit {0})
unfolding add_deltas
assert_balanced lines =
    if ltb (length lines) 2
    then err journal_too_short
    else (if is_zero_ℤ (add_deltas (pos 0) lines) then ok tt else err unbalanced_journal)

-- The balance that a check starts from: the one projected so far, or the stored one.
abbrev pub base_balance : Option ℤ → ℤ → ℤ
base_balance none stored = stored
base_balance (some v) stored = v

-- The row is looked up before its type is read. `balance` is the row's.
abbrev pub check_found : PostingLine → ℤ → Dict AccountKey ℤ → Result (Dict AccountKey ℤ)
check_found l balance projected =
    let next = base_balance (lookup l.account projected) balance +ℤ l.delta in
    if is_external l.account
    then ok projected
    else (if ltb_ℤ next (pos 0)
        then err insufficient_balance
        else ok (insert l.account next projected))

unfoldable pub assert_non_negative_after_delta :
    Dict AccountKey ℤ → PostingLine → Dict AccountKey ℤ → Result (Dict AccountKey ℤ)
assert_non_negative_after_delta accounts l projected =
    or_throw (lookup l.account accounts) account_not_found >>= λ balance.
    check_found l balance projected

-- The first loop over the lines: no write yet.
unfoldable pub check_lines :
    Dict AccountKey ℤ → List PostingLine → Dict AccountKey ℤ → Result (Dict AccountKey ℤ)
check_lines accounts [] projected = ok projected
check_lines accounts (l ∷ ls) projected =
    (if is_zero_ℤ l.delta
      then err zero_delta
      else assert_non_negative_after_delta accounts l projected)
    >>= check_lines accounts ls

abbrev pub written : PostingLine → ℤ → LedgerLine
written l next = record { account = l.account; delta = l.delta; balance_after = next }

-- The second loop: each line updates its account and makes a row.
unfoldable pub apply_lines :
    List PostingLine → Dict AccountKey ℤ → Result (List LedgerLine × Dict AccountKey ℤ)
apply_lines [] accounts = ok ([], accounts)
apply_lines (l ∷ ls) accounts =
    or_throw (lookup l.account accounts) account_not_found >>= λ balance.
    let next = balance +ℤ l.delta in
    apply_lines ls (insert l.account next accounts) >>= λ (rows, after).
    ok (written l next ∷ rows, after)

unfoldable pub find_transaction : IdempotencyKey → List LedgerTransaction → Option LedgerTransaction
find_transaction key = find_first (λ t. journal_beq t.idempotency_key key)

abbrev post_new : IdempotencyKey → List PostingLine → Ledger → Result (Posted × Ledger)
post_new key lines ledger = check_lines ledger.accounts lines [] >>= λ _.
    apply_lines lines ledger.accounts >>= λ (rows, after).
    let t : LedgerTransaction = record { idempotency_key = key; lines = rows } in
    ok (
      record { transaction = t; duplicate = false },
      record { accounts = after; transactions = t ∷ ledger.transactions },
    )

unfoldable pub post_journal_in_tx :
    IdempotencyKey → List PostingLine → Ledger → Result (Posted × Ledger)
post_journal_in_tx key lines ledger =
    assert_balanced lines >> elim (find_transaction key ledger.transactions) [
      | some existing ↦ ok (record { transaction = existing; duplicate = true }, ledger)
      | none ↦ post_new key lines ledger
    ]

unfoldable pub post_transfer_in_tx :
    IdempotencyKey → AccountKey → AccountKey → ℤ → Ledger → Result (Posted × Ledger)
post_transfer_in_tx key from to amount ledger =
    if leb_ℤ amount (pos 0)
    then err amount_not_positive
    else (if key_beq from to
        then err same_account
        else post_journal_in_tx key
            (record { account = from; delta = neg amount }
              ∷ record { account = to; delta = amount }
              ∷ [])
            ledger)
