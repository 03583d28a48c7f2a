-- ===== src/Ledger/Posting/Effect.antt =====
-- What a posted journal does to the balances (postJournalInTx, assertBalanced).
use myturn_webportal.Prelude.{
  ◌≡◌, refl, false, inl, inr, Option, none, some, List, [], ◌∷◌, arith, if◌then◌else◌, Bool-cases,
  ok, sym, ap, ◌∙◌, ltb, length, >>=-eq-ok, or_throw, account_not_found,
}
use myturn_webportal.Prelude.Int.{ℤ, pos, ◌+ℤ◌, int_laws, +ℤ_zero, zero_+ℤ, +ℤ_assoc}
use myturn_webportal.Dict.{Dict, lookup, insert, lookup-insert, total, total-insert}
use myturn_webportal.Ledger.Account.{AccountKey, key_eq, key_beq, key_beq_iff}
use myturn_webportal.Ledger.Posting.{
  PostingLine, LedgerLine, sum_deltas, add_deltas, assert_balanced, apply_lines, written, Ledger,
  Posted, post_journal_in_tx,
}
use myturn_webportal.Ledger.Posting.Journal.{IdempotencyKey}
use myturn_webportal.Ledger.Posting.Cases.{post_journal-cases}

-- What the lines add to one account.
abbrev pub delta_on : AccountKey → List PostingLine → ℤ
delta_on k [] = pos 0
delta_on k (l ∷ ls) = (if key_beq l.account k then l.delta else pos 0) +ℤ delta_on k ls

abbrev pub moved : ℤ → Option ℤ → Option ℤ
moved d none = none
moved d (some b) = some (b +ℤ d)

moved-zero : (o : Option ℤ) → o ≡ moved (pos 0) o
moved-zero none = refl
moved-zero (some b) = ap some (sym (+ℤ_zero b))

moved-moved : (a b : ℤ) (o : Option ℤ) → moved b (moved a o) ≡ moved (a +ℤ b) o
moved-moved a b none = refl
moved-moved a b (some x) = ap some (+ℤ_assoc x a b)

-- One line of the second loop: the account is there, and its row has the new balance.
pub apply_lines-cons :
    (l : PostingLine) (ls : List PostingLine) (accounts : Dict AccountKey ℤ)
    {rows : List LedgerLine} {after : Dict AccountKey ℤ}
    → apply_lines (l ∷ ls) accounts ≡ ok (rows, after)
    → (balance : ℤ) × (rest : List LedgerLine) × (lookup l.account accounts ≡ some balance)
      × (apply_lines ls (insert l.account (balance +ℤ l.delta) accounts) ≡ ok (rest, after))
      × (rows ≡ written l (balance +ℤ l.delta) ∷ rest)
unfolding apply_lines
apply_lines-cons l ls accounts h =
    let (balance, found, h₁) =
      >>=-eq-ok (or_throw (lookup l.account accounts) account_not_found) _ h in
    let ((rest, final), done, h₂) =
      >>=-eq-ok (apply_lines ls (insert l.account (balance +ℤ l.delta) accounts)) _ h₁ in
    (balance, rest, ground arith, ground arith, ground arith)

pub apply_lines-lookup :
    (k : AccountKey) (ls : List PostingLine) (accounts : Dict AccountKey ℤ) {rows : List LedgerLine}
    {after : Dict AccountKey ℤ}
    → apply_lines ls accounts ≡ ok (rows, after)
    → lookup k after ≡ moved (delta_on k ls) (lookup k accounts)
unfolding apply_lines
apply_lines-lookup k [] accounts h = ground (arith, moved-zero (lookup k accounts))
apply_lines-lookup k (l ∷ ls) accounts h =
    let (balance, rest, found, done, _) = apply_lines-cons l ls accounts h in
    let carry = apply_lines-lookup k ls (insert l.account (balance +ℤ l.delta) accounts) done in
    elim (Bool-cases (key_beq l.account k)) [
      | inl same ↦
          let found_k : lookup k accounts ≡ some balance =
            rw (← (key_beq_iff l.account k).0 same) found in
          rw (carry, lookup-insert l.account k (balance +ℤ l.delta) accounts, same, found_k)
            (ap some (+ℤ_assoc balance l.delta (delta_on k ls)))
      | inr other ↦
          rw (carry, lookup-insert l.account k (balance +ℤ l.delta) accounts, other, zero_+ℤ)
    ]

pub apply_lines-total :
    (ls : List PostingLine) (accounts : Dict AccountKey ℤ) {rows : List LedgerLine}
    {after : Dict AccountKey ℤ}
    → apply_lines ls accounts ≡ ok (rows, after)
    → total after ≡ total accounts +ℤ sum_deltas ls
unfolding apply_lines
apply_lines-total [] accounts h = ground (arith, +ℤ_zero (total accounts))
apply_lines-total (l ∷ ls) accounts h =
    let (balance, rest, found, done, _) = apply_lines-cons l ls accounts h in
    rw (apply_lines-total ls _ done)
      (rw (total-insert l.account (balance +ℤ l.delta) balance accounts found) (omega int_laws))

add_deltas-sum : (acc : ℤ) (ls : List PostingLine) → add_deltas acc ls ≡ acc +ℤ sum_deltas ls
unfolding add_deltas
add_deltas-sum acc [] = sym (+ℤ_zero acc)
add_deltas-sum acc (l ∷ ls) =
    rw (add_deltas-sum (acc +ℤ l.delta) ls) (+ℤ_assoc acc l.delta (sum_deltas ls))

pub assert_balanced-sum :
    (ls : List PostingLine) → assert_balanced ls ≡ ok tt → sum_deltas ls ≡ pos 0
unfolding assert_balanced
assert_balanced-sum ls h = ground (arith, add_deltas-sum (pos 0) ls, zero_+ℤ (sum_deltas ls))

pub assert_balanced-of_sum :
    (ls : List PostingLine)
    → ltb (length ls) 2 ≡ false
    → sum_deltas ls ≡ pos 0
    → assert_balanced ls ≡ ok tt
unfolding assert_balanced
assert_balanced-of_sum ls long h =
    let zero_sum = add_deltas-sum (pos 0) ls ∙ zero_+ℤ (sum_deltas ls) ∙ h in rw (long, zero_sum)

-- A posted journal moves amounts between accounts and leaves the sum of all balances as it was,
-- whether it is new or was posted before.
pub post_journal-total :
    (key : IdempotencyKey) (lines : List PostingLine) (before : Ledger) {p : Posted}
    {after : Ledger}
    → post_journal_in_tx key lines before ≡ ok (p, after)
    → total after.accounts ≡ total before.accounts
post_journal-total key lines before {p} {after} h = elim (post_journal-cases key lines before h) [
  | inl fresh ↦
      rw
        (
          apply_lines-total lines before.accounts fresh.applied,
          assert_balanced-sum lines fresh.balanced,
        )
        (+ℤ_zero (total before.accounts))
  | inr old ↦ ap (λ l. total l.accounts) old.unchanged
]

-- A new journal adds to each account the sum of the lines on it, in any order of the lines, and a
-- journal whose key was used adds nothing.
pub post_journal-lookup :
    (key : IdempotencyKey) (lines : List PostingLine) (before : Ledger) {p : Posted}
    {after : Ledger}
    → post_journal_in_tx key lines before ≡ ok (p, after)
    → (k : AccountKey)
    → lookup k after.accounts
      ≡ moved (if p.duplicate then pos 0 else delta_on k lines) (lookup k before.accounts)
post_journal-lookup key lines before {p} {after} h k =
    elim (post_journal-cases key lines before h) [
      | inl fresh ↦ rw fresh.is_new (apply_lines-lookup k lines before.accounts fresh.applied)
      | inr old ↦ rw (old.unchanged, old.is_duplicate) (moved-zero (lookup k before.accounts))
    ]
