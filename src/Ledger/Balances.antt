-- ===== src/Ledger/Balances.antt =====
-- A transfer between accounts that the caller has opened, and the keys that it leaves unused.
use myturn_webportal.Prelude.{
  ◌≡◌, ◌≢◌, ◌⊎◌, ap, ◌∙◌, inl, inr, false, none, List, [], ◌∷◌, arith, Bool-cases, ok,
}
use myturn_webportal.Prelude.Int.{ℤ, pos, ◌+ℤ◌, neg}
use myturn_webportal.Prelude.{refl, Bool, true, if◌then◌else◌}
use myturn_webportal.Prelude.Int.{+ℤ_zero}
use myturn_webportal.Ledger.Accounts.{balance_or_zero}
use myturn_webportal.Dict.{lookup, insert, lookup-insert}
use myturn_webportal.Ledger.Account.{AccountKey, key_eq, key_beq, key_beq_iff}
use myturn_webportal.Ledger.Accounts.{get_balance, get_or_create, get_or_create-transactions}
use myturn_webportal.Ledger.Moves.{balance-moved, some_is_there, opened, move_between}
use myturn_webportal.Ledger.Posting.Cases.{post_journal-cases, Fresh}
use myturn_webportal.Ledger.Posting.Effect.{delta_on, apply_lines-cons, post_journal-lookup}
use myturn_webportal.Ledger.Posting.Journal.{IdempotencyKey, journal_beq, journal_beq_iff}
use myturn_webportal.Ledger.Posting.Transfer.{transfer_lines, post_transfer-ok}
use myturn_webportal.Ledger.Posting.{
  PostingLine, Ledger, LedgerTransaction, Posted, find_transaction, post_journal_in_tx,
}

find_transaction-other :
    (key other : IdempotencyKey) (t : LedgerTransaction) (ts : List LedgerTransaction)
    → t.idempotency_key ≡ key
    → key ≢ other
    → find_transaction other (t ∷ ts) ≡ find_transaction other ts
unfolding find_transaction
find_transaction-other key other t ts e ne =
    let differ : journal_beq t.idempotency_key other ≡ false =
      ground (arith, journal_beq_iff t.idempotency_key other) in
    rw differ

-- A posting uses its own key only.
pub post_journal-other :
    (key other : IdempotencyKey) (lines : List PostingLine) (before : Ledger) {p : Posted}
    {after : Ledger}
    → key ≢ other
    → post_journal_in_tx key lines before ≡ ok (p, after)
    → find_transaction other after.transactions ≡ find_transaction other before.transactions
post_journal-other key other lines before {p} {after} ne h =
    elim (post_journal-cases key lines before h) [
      | inl fresh ↦
          rw fresh.recorded
            (find_transaction-other key other p.transaction before.transactions fresh.key_kept ne)
      | inr old ↦ rw old.unchanged
    ]

pub post_journal-is_new :
    (key : IdempotencyKey) (lines : List PostingLine) (before : Ledger) {p : Posted}
    {after : Ledger}
    → find_transaction key before.transactions ≡ none
    → post_journal_in_tx key lines before ≡ ok (p, after)
    → p.duplicate ≡ false
post_journal-is_new key lines before unused h = elim (post_journal-cases key lines before h) [
  | inl fresh ↦ fresh.is_new
  | inr old ↦ cc (unused, old.found)
]

module _ (key : IdempotencyKey) (from to : AccountKey) (amount : ℤ) (before : Ledger) {p : Posted}
    {after : Ledger} (differ : from ≢ to)
    (h : post_journal_in_tx key (transfer_lines from to amount) before ≡ ok (p, after)) where
  transfer-present :
      Fresh key (transfer_lines from to amount) before after p
      → (lookup from before.accounts ≢ none) × (lookup to before.accounts ≢ none)
  transfer-present fresh =
      let l₁ : PostingLine = record { account = from; delta = neg amount } in
      let l₂ : PostingLine = record { account = to; delta = amount } in
      let (b, _, found, rest, _) = apply_lines-cons l₁ (l₂ ∷ []) before.accounts fresh.applied in
      let (c, _, found₂, _, _) =
        apply_lines-cons l₂ [] (insert from (b +ℤ neg amount) before.accounts) rest in
      let other : key_beq from to ≡ false = ground (arith, key_beq_iff from to) in
      (
        some_is_there found,
        some_is_there
            (rw (lookup-insert from to (b +ℤ neg amount) before.accounts, other) at found₂),
      )

  -- The two accounts must be there for a new transfer to go through, so that this holds of every
  -- account, open or not.
  pub transfer-balance :
      p.duplicate ≡ false
      → (k : AccountKey)
      → get_balance k after ≡ get_balance k before +ℤ delta_on k (transfer_lines from to amount)
  unfolding get_balance ◌+ℤ◌
  transfer-balance new k =
      let after_k =
        rw new at (post_journal-lookup key (transfer_lines from to amount) before h k) in
      rw after_k (
        balance-moved (delta_on k (transfer_lines from to amount)) (lookup k before.accounts) there)
    where
      there :
          (lookup k before.accounts ≢ none) ⊎ (delta_on k (transfer_lines from to amount) ≡ pos 0)
      there = elim (post_journal-cases key (transfer_lines from to amount) before h) [
        | inr old ↦ cc (new, old.is_duplicate)
        | inl fresh ↦
            let (from_there, to_there) = transfer-present fresh in
            elim (Bool-cases (key_beq from k)) [
              | inl is_from ↦ inl (rw (← (key_beq_iff from k).0 is_from) from_there)
              | inr not_from ↦ elim (Bool-cases (key_beq to k)) [
                | inl is_to ↦ inl (rw (← (key_beq_iff to k).0 is_to) to_there)
                | inr not_to ↦ inr (rw (not_from, not_to) (ground arith))
              ]
            ]
      ]

pub move_between-other :
    (key other : IdempotencyKey) (from to : AccountKey) (amount : ℤ) (l : Ledger) {p : Posted}
    {after : Ledger}
    → key ≢ other
    → move_between key from to amount l ≡ ok (p, after)
    → find_transaction other after.transactions ≡ find_transaction other l.transactions
unfolding move_between
move_between-other key other from to amount l ne h =
    let same_log : (opened from to l).transactions ≡ l.transactions =
      get_or_create-transactions to (get_or_create from l) ∙ get_or_create-transactions from l in
    post_journal-other key other (transfer_lines from to amount) (opened from to l) ne
      (post_transfer-ok key from to amount (opened from to l) h).2
    ∙ ap (find_transaction other) same_log

-- A posting leaves alone what its lines add nothing to.
pub post_journal-elsewhere :
    (key : IdempotencyKey) (lines : List PostingLine) (before : Ledger) {p : Posted}
    {after : Ledger} (k : AccountKey)
    → delta_on k lines ≡ pos 0
    → post_journal_in_tx key lines before ≡ ok (p, after)
    → get_balance k after ≡ get_balance k before
unfolding get_balance
post_journal-elsewhere key lines before {p} {after} k none_there h =
    let d : ℤ = if p.duplicate then pos 0 else delta_on k lines in
    let nothing : d ≡ pos 0 = rw none_there (if_same p.duplicate) in
    rw (post_journal-lookup key lines before h k) (
      balance-moved d (lookup k before.accounts) (inr nothing)
      ∙ rw nothing (+ℤ_zero (balance_or_zero (lookup k before.accounts))))
  where
    if_same : (b : Bool) → (if b then pos 0 else pos 0) ≡ pos 0
    if_same true = refl
    if_same false = refl
