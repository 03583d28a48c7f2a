-- ===== src/Ledger/Posting/Transfer.antt =====
-- postTransferInTx, as the services use it: when it goes through, what it moves, and when it is
-- refused.
use myturn_webportal.Prelude.{
  ◌≡◌, ◌≢◌, ◌⊎◌, inl, inr, true, false, none, some, List, [], ◌∷◌, arith, if◌then◌else◌, Bool-cases,
  ok, err, insufficient_balance,
}
use myturn_webportal.Prelude.Int.{
  ℤ, pos, ◌+ℤ◌, ◌≤ℤ◌, neg, leb_ℤ, ltb_ℤ, is_zero_ℤ, +ℤ_parts, neg_parts, int_laws,
}
use myturn_webportal.Dict.{Dict, lookup, insert, lookup-insert}
use myturn_webportal.Ledger.Account.{AccountKey, key_eq, key_beq, key_beq_iff, is_external}
use myturn_webportal.Ledger.Posting.Journal.{IdempotencyKey}
use myturn_webportal.Ledger.Posting.Effect.{delta_on, moved, post_journal-lookup}
use myturn_webportal.Ledger.Posting.{
  base_balance, PostingLine, LedgerTransaction, Ledger, Posted, find_transaction, check_lines,
  assert_balanced, assert_non_negative_after_delta, apply_lines, post_journal_in_tx,
  post_transfer_in_tx,
}

key_beq-ne : (a b : AccountKey) → a ≢ b → key_beq a b ≡ false
key_beq-ne a b ne = ground (arith, key_beq_iff a b)

-- The two lines of a transfer.
abbrev pub transfer_lines : AccountKey → AccountKey → ℤ → List PostingLine
transfer_lines from to amount =
    record { account = from; delta = neg amount } ∷ record { account = to; delta = amount } ∷ []

transfer_lines-balanced :
    (from to : AccountKey) (amount : ℤ) → assert_balanced (transfer_lines from to amount) ≡ ok tt
unfolding assert_balanced
transfer_lines-balanced from to amount =
    let zero_sum : pos 0 +ℤ neg amount +ℤ amount ≡ pos 0 = omega int_laws in rw zero_sum

abbrev projected_by : PostingLine → ℤ → Dict AccountKey ℤ → Dict AccountKey ℤ
projected_by l b projected =
    if is_external l.account
    then projected
    else insert l.account (base_balance (lookup l.account projected) b +ℤ l.delta) projected

assert_passes :
    (stored : Dict AccountKey ℤ) (l : PostingLine) (projected : Dict AccountKey ℤ) (b : ℤ)
    → lookup l.account stored ≡ some b
    → (is_external l.account ≡ true)
      ⊎ (pos 0 ≤ℤ base_balance (lookup l.account projected) b +ℤ l.delta)
    → assert_non_negative_after_delta stored l projected ≡ ok (projected_by l b projected)
unfolding assert_non_negative_after_delta
assert_passes stored l projected b found h = rw found (ground arith)

is_zero-positive : (a : ℤ) → pos 1 ≤ℤ a → (is_zero_ℤ a ≡ false) × (is_zero_ℤ (neg a) ≡ false)
unfolding neg
is_zero-positive a h = ground arith

lookup-projected_by :
    (l : PostingLine) (b : ℤ) (k : AccountKey)
    → l.account ≢ k
    → lookup k (projected_by l b []) ≡ none
unfolding lookup insert
lookup-projected_by l b k ne =
    let other = key_beq-ne l.account k ne in
    elim (Bool-cases (is_external l.account)) [
      | inl ext ↦ rw ext
      | inr internal ↦ rw (internal, other)
    ]

-- What a transfer between balances `held` and `there` leaves.
abbrev pub transferred :
    IdempotencyKey → AccountKey → AccountKey → ℤ → ℤ → ℤ → Ledger → Posted × Ledger
transferred key from to amount held there before =
    let t : LedgerTransaction = record {
      idempotency_key = key;
      lines =
          record { account = from; delta = neg amount; balance_after = held +ℤ neg amount }
          ∷ record { account = to; delta = amount; balance_after = there +ℤ amount }
          ∷ [];
    } in
    (
      record { transaction = t; duplicate = false },
      record {
        accounts = insert to (there +ℤ amount) (insert from (held +ℤ neg amount) before.accounts);
        transactions = t ∷ before.transactions;
      },
    )

module _ (key : IdempotencyKey) (from to : AccountKey) (amount : ℤ) (before : Ledger) where
  pub post_transfer-journal :
      from ≢ to
      → pos 1 ≤ℤ amount
      → post_transfer_in_tx key from to amount before
        ≡ post_journal_in_tx key (transfer_lines from to amount) before
  unfolding post_transfer_in_tx
  post_transfer-journal ne positive =
      let test : leb_ℤ amount (pos 0) ≡ false = ground arith in rw (test, key_beq-ne from to ne)

  -- Between two different accounts that exist, a positive amount that the source holds (or that comes
  -- from outside), to an account that is not below 0 (or to the outside), is moved, if the key was
  -- not used.
  pub post_transfer_succeeds :
      (held there : ℤ)
      → find_transaction key before.transactions ≡ none
      → from ≢ to
      → pos 1 ≤ℤ amount
      → lookup from before.accounts ≡ some held
      → lookup to before.accounts ≡ some there
      → (is_external from ≡ true) ⊎ (amount ≤ℤ held)
      → (is_external to ≡ true) ⊎ (pos 0 ≤ℤ there)
      → post_transfer_in_tx key from to amount before
        ≡ ok (transferred key from to amount held there before)
  unfolding post_journal_in_tx check_lines apply_lines lookup
  post_transfer_succeeds held there unused ne positive h t enough room =
      let l₁ : PostingLine = record { account = from; delta = neg amount } in
      let l₂ : PostingLine = record { account = to; delta = amount } in
      let (nonzero₂, nonzero₁) = is_zero-positive amount positive in
      let pass₁ =
        assert_passes before.accounts l₁ [] held h
          (elim enough [ inl e ↦ inl e | inr le ↦ inr (omega int_laws) ]) in
      let pass₂ = assert_passes before.accounts l₂ (projected_by l₁ held []) there t (
        rw (lookup-projected_by l₁ held to ne)
          (elim room [ inl e ↦ inl e | inr le ↦ inr (omega int_laws) ])) in
      let t' : lookup to (insert from (held +ℤ neg amount) before.accounts) ≡ some there =
        rw (lookup-insert from to (held +ℤ neg amount) before.accounts, key_beq-ne from to ne) t in
      rw (
        post_transfer-journal ne positive,
        transfer_lines-balanced from to amount,
        unused,
        nonzero₁,
        pass₁,
        nonzero₂,
        pass₂,
        h,
        t',
      )

  -- A transfer under an unused key of more than its source, an internal account, holds is refused:
  -- nothing is written.
  pub post_transfer_overdraft :
      (held : ℤ)
      → find_transaction key before.transactions ≡ none
      → from ≢ to
      → pos 1 ≤ℤ amount
      → lookup from before.accounts ≡ some held
      → is_external from ≡ false
      → ¬ (amount ≤ℤ held)
      → post_transfer_in_tx key from to amount before ≡ err insufficient_balance
  unfolding post_journal_in_tx check_lines assert_non_negative_after_delta lookup
  post_transfer_overdraft held unused ne positive h internal short =
      let (_, nonzero) = is_zero-positive amount positive in
      let below : ltb_ℤ (held +ℤ neg amount) (pos 0) ≡ true =
        ground (arith, +ℤ_parts held (neg amount), neg_parts amount) in
      rw (
        post_transfer-journal ne positive,
        transfer_lines-balanced from to amount,
        unused,
        nonzero,
        h,
        internal,
        below,
      )

  -- A transfer that returns posted its two lines.
  pub post_transfer-ok :
      {p : Posted} {after : Ledger}
      → post_transfer_in_tx key from to amount before ≡ ok (p, after)
      → (pos 1 ≤ℤ amount)
        × (from ≢ to)
        × (post_journal_in_tx key (transfer_lines from to amount) before ≡ ok (p, after))
  unfolding post_transfer_in_tx
  post_transfer-ok {p} {after} h = elim (Bool-cases (leb_ℤ amount (pos 0))) [
    | inl low ↦ cc (rw low at h)
    | inr positive ↦
        let h₁ = rw positive at h in
        elim (Bool-cases (key_beq from to)) [
          | inl same ↦ cc (rw same at h₁)
          | inr differ ↦
              (ground arith, λ e. cc ((key_beq_iff from to).1 e, differ), rw differ at h₁)
        ]
  ]

  -- What a transfer that returns has moved: the amount from the one account to the other and
  -- nothing else, or nothing at all if its key was used before.
  pub post_transfer-lookup :
      {p : Posted} {after : Ledger}
      → post_transfer_in_tx key from to amount before ≡ ok (p, after)
      → (k : AccountKey)
      → lookup k after.accounts
        ≡ moved
            (if p.duplicate then pos 0 else delta_on k (transfer_lines from to amount))
            (lookup k before.accounts)
  post_transfer-lookup h k =
      post_journal-lookup key (transfer_lines from to amount) before (post_transfer-ok h).2 k
