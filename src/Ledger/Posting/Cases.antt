-- ===== src/Ledger/Posting/Cases.antt =====
-- The two ways in which postJournalInTx returns: an old transaction, or a new one.
use myturn_webportal.Prelude.{
  ◌≡◌, ◌⊎◌, inl, inr, true, false, none, some, List, [], ◌∷◌, arith, Option-cases, ok, Result,
  >>=-eq-ok,
}
use myturn_webportal.Prelude.Int.{ℤ}
use myturn_webportal.Dict.{Dict}
use myturn_webportal.Ledger.Account.{AccountKey}
use myturn_webportal.Ledger.Posting.Journal.{IdempotencyKey}
use myturn_webportal.Ledger.Posting.{
  PostingLine, LedgerLine, LedgerTransaction, Ledger, Posted, assert_balanced, check_lines,
  apply_lines, find_transaction, post_journal_in_tx,
}

-- What a call that made a new transaction has done.
pub record Fresh (key : IdempotencyKey) (lines : List PostingLine) (before after : Ledger)
    (p : Posted) : Type 0 where
  pub rows : List LedgerLine
  pub projected : Dict AccountKey ℤ
  pub unused : find_transaction key before.transactions ≡ none
  pub balanced : assert_balanced lines ≡ ok tt
  pub checked : check_lines before.accounts lines [] ≡ ok projected
  pub applied : apply_lines lines before.accounts ≡ ok (rows, after.accounts)
  pub recorded : after.transactions ≡ p.transaction ∷ before.transactions
  pub key_kept : p.transaction.idempotency_key ≡ key
  pub rows_kept : p.transaction.lines ≡ rows
  pub is_new : p.duplicate ≡ false

-- What a call that found its key has done.
pub record Replayed (key : IdempotencyKey) (before after : Ledger) (p : Posted) : Type 0 where
  pub found : find_transaction key before.transactions ≡ some p.transaction
  pub unchanged : after ≡ before
  pub is_duplicate : p.duplicate ≡ true

pub post_journal-cases :
    (key : IdempotencyKey) (lines : List PostingLine) (before : Ledger) {p : Posted}
    {after : Ledger}
    → post_journal_in_tx key lines before ≡ ok (p, after)
    → Fresh key lines before after p ⊎ Replayed key before after p
unfolding post_journal_in_tx
post_journal-cases key lines before {p} {after} h =
    let (_, balanced, h₁) = >>=-eq-ok (assert_balanced lines) _ h in
    elim (Option-cases (find_transaction key before.transactions)) [
      | inr (t, found) ↦ inr (replay t found (rw found at h₁))
      | inl unused ↦
          let (projected, checked, h₂) =
            >>=-eq-ok (check_lines before.accounts lines []) _ (rw unused at h₁) in
          let ((rows, accounts), applied, h₃) =
            >>=-eq-ok (apply_lines lines before.accounts) _ h₂ in
          inl (record {
            rows = rows;
            projected = projected;
            unused = unused;
            balanced = ground arith;
            checked = checked;
            applied = ground arith;
            recorded = ground arith;
            key_kept = ground arith;
            rows_kept = ground arith;
            is_new = ground arith;
          })
    ]
  where
    replay :
        (t : LedgerTransaction)
        → find_transaction key before.transactions ≡ some t
        → ◌≡◌ {A = Result (Posted × Ledger)}
            (ok (record { transaction = t; duplicate = true }, before))
            (ok (p, after))
        → Replayed key before after p
    replay t found e = record {
      found = ground arith;
      unchanged = ground arith;
      is_duplicate = ground arith;
    }
