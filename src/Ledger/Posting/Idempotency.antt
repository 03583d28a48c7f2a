-- ===== src/Ledger/Posting/Idempotency.antt =====
-- Retries: the same idempotency key is posted at most once.
use myturn_webportal.Prelude.{
  ◌≡◌, refl, sym, ◌∙◌, inl, inr, true, none, some, List, [], ◌∷◌, arith, if◌then◌else◌, Bool-cases,
  ok, ◌+◌, ℕ, ◌≤◌,
}
use myturn_webportal.Ledger.Posting.Journal.{IdempotencyKey, journal_beq, journal_beq_iff}
use myturn_webportal.Ledger.Posting.Cases.{post_journal-cases}
use myturn_webportal.Ledger.Posting.{
  PostingLine, LedgerTransaction, Ledger, Posted, find_transaction, assert_balanced,
  post_journal_in_tx,
}

find_transaction-cons :
    (key : IdempotencyKey) (t : LedgerTransaction) (ts : List LedgerTransaction)
    → t.idempotency_key ≡ key
    → find_transaction key (t ∷ ts) ≡ some t
unfolding find_transaction
find_transaction-cons key t ts e = rw ((journal_beq_iff t.idempotency_key key).1 e)

-- After a posting, its key finds the transaction that it returned.
pub post_journal-find :
    (key : IdempotencyKey) (lines : List PostingLine) (before : Ledger) {p : Posted}
    {after : Ledger}
    → post_journal_in_tx key lines before ≡ ok (p, after)
    → find_transaction key after.transactions ≡ some p.transaction
post_journal-find key lines before {p} {after} h = elim (post_journal-cases key lines before h) [
  | inl fresh ↦
      rw fresh.recorded (find_transaction-cons key p.transaction before.transactions fresh.key_kept)
  | inr old ↦ rw old.unchanged old.found
]

-- A retry with the same key, whatever balanced lines it has, returns the first transaction, says
-- that it is a duplicate and writes nothing.
pub post_journal-retry :
    (key : IdempotencyKey) (lines retried : List PostingLine) (before : Ledger) {p : Posted}
    {after : Ledger}
    → post_journal_in_tx key lines before ≡ ok (p, after)
    → assert_balanced retried ≡ ok tt
    → post_journal_in_tx key retried after
      ≡ ok (record { transaction = p.transaction; duplicate = true }, after)
unfolding post_journal_in_tx
post_journal-retry key lines retried before {p} {after} h b =
    rw (b, post_journal-find key lines before h)

-- How many transactions carry a key.
abbrev pub count_key : IdempotencyKey → List LedgerTransaction → ℕ
count_key key [] = 0
count_key key (t ∷ ts) = (if journal_beq t.idempotency_key key then 1 else 0) + count_key key ts

count_key-unused :
    (key : IdempotencyKey) (ts : List LedgerTransaction)
    → find_transaction key ts ≡ none
    → count_key key ts ≡ 0
unfolding find_transaction
count_key-unused key [] h = refl
count_key-unused key (t ∷ ts) h = ground (arith, count_key-unused key ts)

-- `idempotencyKey @unique`: no two transactions share a key, and posting keeps that.
abbrev HasUniqueKeys : Ledger → Type 0
HasUniqueKeys l = (key : IdempotencyKey) → count_key key l.transactions ≤ 1

post_new-count :
    (key other : IdempotencyKey) (t : LedgerTransaction) (ts : List LedgerTransaction)
    → t.idempotency_key ≡ key
    → find_transaction key ts ≡ none
    → count_key other ts ≤ 1
    → count_key other (t ∷ ts) ≤ 1
post_new-count key other t ts e unused h = elim (Bool-cases (journal_beq t.idempotency_key other)) [
  | inl same ↦
      let key_other : key ≡ other = sym e ∙ (journal_beq_iff t.idempotency_key other).0 same in
      let none_yet : count_key other ts ≡ 0 = rw (← key_other) (count_key-unused key ts unused) in
      rw same (omega arith)
  | inr differs ↦ rw differs (omega arith)
]

-- If no two transactions share an idempotency key, then none do after a posting.
post_journal-HasUniqueKeys :
    (key : IdempotencyKey) (lines : List PostingLine) (before : Ledger) {p : Posted}
    {after : Ledger}
    → HasUniqueKeys before
    → post_journal_in_tx key lines before ≡ ok (p, after)
    → HasUniqueKeys after
post_journal-HasUniqueKeys key lines before {p} {after} unique h other =
    elim (post_journal-cases key lines before h) [
      | inl fresh ↦ rw fresh.recorded (
          post_new-count key other p.transaction before.transactions fresh.key_kept fresh.unused
            (unique other))
      | inr old ↦ rw old.unchanged (unique other)
    ]
