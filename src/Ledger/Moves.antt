-- ===== src/Ledger/Moves.antt =====
-- How the services call postTransferInTx: they open both accounts, then transfer.
use myturn_webportal.Prelude.{
  ◌≡◌, ◌≢◌, ◌⊎◌, refl, sym, ap, ◌∙◌, inl, inr, Bool, true, false, Option, none, some, arith,
  if◌then◌else◌, Bool-cases, ok, err,
}
use myturn_webportal.Prelude.Int.{ℤ, pos, ◌+ℤ◌, ◌≤ℤ◌, +ℤ_zero}
use myturn_webportal.Dict.{lookup, total}
use myturn_webportal.Ledger.Account.{AccountKey, key_eq, key_beq, key_beq_iff, is_external}
use myturn_webportal.Ledger.Posting.Journal.{IdempotencyKey}
use myturn_webportal.Ledger.Posting.Effect.{delta_on, moved, post_journal-total}
use myturn_webportal.Ledger.Posting.Cases.{post_journal-cases}
use myturn_webportal.Ledger.Posting.Solvency.{IsSolvent, post_journal-IsSolvent}
use myturn_webportal.Ledger.Posting.Transfer.{
  transfer_lines, transferred, post_transfer_succeeds, post_transfer-ok, post_transfer-lookup,
  post_transfer_overdraft,
}
use myturn_webportal.Ledger.Posting.{
  Ledger, LedgerTransaction, Posted, find_transaction, post_transfer_in_tx,
}
use myturn_webportal.Prelude.{Result, insufficient_balance}
use myturn_webportal.Ledger.Accounts.{
  balance_or_zero, get_or_create, get_balance, get_or_create-lookup, get_or_create-balance,
  get_or_create-total, get_or_create-transactions, get_or_create-IsSolvent,
}

abbrev pub opened : AccountKey → AccountKey → Ledger → Ledger
opened from to l = get_or_create to (get_or_create from l)

unfoldable pub move_between :
    IdempotencyKey → AccountKey → AccountKey → ℤ → Ledger → Result (Posted × Ledger)
move_between key from to amount l = post_transfer_in_tx key from to amount (opened from to l)

key_beq_refl : (k : AccountKey) → key_beq k k ≡ true
key_beq_refl k = (key_beq_iff k k).1 refl

key_beq-differ : (a b : AccountKey) → a ≢ b → key_beq a b ≡ false
key_beq-differ a b ne = ground (arith, key_beq_iff a b)

pub balance-moved :
    (d : ℤ) (o : Option ℤ)
    → (o ≢ none) ⊎ (d ≡ pos 0)
    → balance_or_zero (moved d o) ≡ balance_or_zero o +ℤ d
balance-moved d none (inl h) = ground arith
balance-moved d none (inr h) = rw h (sym (+ℤ_zero (pos 0)))
balance-moved d (some b) h = refl

pub some_is_there : {o : Option ℤ} {b : ℤ} → o ≡ some b → o ≢ none
some_is_there h = λ e. cc (h, e)

module _ (key : IdempotencyKey) (from to : AccountKey) (amount : ℤ) (l : Ledger) where
  opened-balance : (k : AccountKey) → get_balance k (opened from to l) ≡ get_balance k l
  opened-balance k =
      get_or_create-balance to k (get_or_create from l) ∙ get_or_create-balance from k l

  opened-from : lookup from (opened from to l).accounts ≡ some (get_balance from l)
  unfolding get_balance
  opened-from = elim (Bool-cases (key_beq to from)) [
    | inl same ↦
        let e = (key_beq_iff to from).0 same in
        rw (get_or_create-lookup to from (get_or_create from l), same)
          (ap some (rw e (get_or_create-balance from from l)))
    | inr differ ↦ rw (
      get_or_create-lookup to from (get_or_create from l),
      differ,
      get_or_create-lookup from from l,
      key_beq_refl from,
    )
  ]

  opened-to : lookup to (opened from to l).accounts ≡ some (get_balance to l)
  unfolding get_balance
  opened-to =
      rw (get_or_create-lookup to to (get_or_create from l), key_beq_refl to)
        (ap some (get_or_create-balance from to l))

  -- An account that the transfer changes is one of the two that are open.
  there_or_zero :
      (k : AccountKey) (duplicate : Bool)
      → (lookup k (opened from to l).accounts ≢ none)
        ⊎ ((if duplicate then pos 0 else delta_on k (transfer_lines from to amount)) ≡ pos 0)
  unfolding ◌+ℤ◌
  there_or_zero k duplicate = elim (Bool-cases (key_beq from k)) [
    | inl is_from ↦ inl (rw (← (key_beq_iff from k).0 is_from) (some_is_there opened-from))
    | inr not_from ↦ elim (Bool-cases (key_beq to k)) [
      | inl is_to ↦ inl (rw (← (key_beq_iff to k).0 is_to) (some_is_there opened-to))
      | inr not_to ↦ inr (rw (not_from, not_to) (ground arith))
    ]
  ]

  -- When it goes through, `from` has lost the amount and `to` has gained it, and nothing else has
  -- changed; with a used key, no balance has changed.
  pub move_between-balance :
      {p : Posted} {after : Ledger}
      → move_between key from to amount l ≡ ok (p, after)
      → (k : AccountKey)
      → get_balance k after
        ≡ get_balance k l
          +ℤ (if p.duplicate then pos 0 else delta_on k (transfer_lines from to amount))
  unfolding move_between get_balance
  move_between-balance {p} {after} h k =
      let d : ℤ = if p.duplicate then pos 0 else delta_on k (transfer_lines from to amount) in
      let after_k = post_transfer-lookup key from to amount (opened from to l) h k in
      rw after_k (
        balance-moved d (lookup k (opened from to l).accounts) (there_or_zero k p.duplicate)
        ∙ ap (λ b. b +ℤ d) (opened-balance k))

  pub move_between-total :
      {p : Posted} {after : Ledger}
      → move_between key from to amount l ≡ ok (p, after)
      → total after.accounts ≡ total l.accounts
  unfolding move_between
  move_between-total h =
      post_journal-total key (transfer_lines from to amount) (opened from to l)
        (post_transfer-ok key from to amount (opened from to l) h).2
      ∙ get_or_create-total to (get_or_create from l)
      ∙ get_or_create-total from l

  pub move_between-IsSolvent :
      {p : Posted} {after : Ledger}
      → IsSolvent l.accounts
      → move_between key from to amount l ≡ ok (p, after)
      → IsSolvent after.accounts
  unfolding move_between
  move_between-IsSolvent solvent h =
      post_journal-IsSolvent key (transfer_lines from to amount) (opened from to l)
        (get_or_create-IsSolvent to (get_or_create from l) (get_or_create-IsSolvent from l solvent))
        (post_transfer-ok key from to amount (opened from to l) h).2

  -- A positive amount that the source holds goes through, if the key is new.
  pub move_between_succeeds :
      find_transaction key l.transactions ≡ none
      → from ≢ to
      → pos 1 ≤ℤ amount
      → (is_external from ≡ true) ⊎ (amount ≤ℤ get_balance from l)
      → (is_external to ≡ true) ⊎ (pos 0 ≤ℤ get_balance to l)
      → move_between key from to amount l
        ≡ ok (
            transferred key from to amount
              (get_balance from l)
              (get_balance to l)
              (opened from to l))
  unfolding move_between
  move_between_succeeds unused ne positive enough room =
      let same_log : (opened from to l).transactions ≡ l.transactions =
        get_or_create-transactions to (get_or_create from l) ∙ get_or_create-transactions from l in
      post_transfer_succeeds key from to amount (opened from to l) (get_balance from l)
        (get_balance to l) (rw same_log unused) ne positive opened-from opened-to enough room

  pub move_between_overdraft :
      find_transaction key l.transactions ≡ none
      → from ≢ to
      → pos 1 ≤ℤ amount
      → is_external from ≡ false
      → ¬ (amount ≤ℤ get_balance from l)
      → move_between key from to amount l ≡ err insufficient_balance
  unfolding move_between
  move_between_overdraft unused ne positive internal short =
      let same_log : (opened from to l).transactions ≡ l.transactions =
        get_or_create-transactions to (get_or_create from l) ∙ get_or_create-transactions from l in
      post_transfer_overdraft key from to amount (opened from to l) (get_balance from l)
        (rw same_log unused) ne positive opened-from internal short

  -- It is a duplicate exactly if the key was used.
  pub move_between-duplicate :
      {p : Posted} {after : Ledger} {t : LedgerTransaction}
      → move_between key from to amount l ≡ ok (p, after)
      → find_transaction key l.transactions ≡ some t
      → p.duplicate ≡ true
  unfolding move_between
  move_between-duplicate {p} {after} {t} h used =
      let same_log : (opened from to l).transactions ≡ l.transactions =
        get_or_create-transactions to (get_or_create from l) ∙ get_or_create-transactions from l in
      elim (post_journal-cases key (transfer_lines from to amount) (opened from to l)
        (post_transfer-ok key from to amount (opened from to l) h).2) [
          | inl fresh ↦ cc (used, rw same_log at fresh.unused)
          | inr old ↦ old.is_duplicate
        ]

  pub move_between-new :
      {p : Posted} {after : Ledger}
      → move_between key from to amount l ≡ ok (p, after)
      → find_transaction key l.transactions ≡ none
      → p.duplicate ≡ false
  unfolding move_between
  move_between-new {p} {after} h unused =
      let same_log : (opened from to l).transactions ≡ l.transactions =
        get_or_create-transactions to (get_or_create from l) ∙ get_or_create-transactions from l in
      elim (post_journal-cases key (transfer_lines from to amount) (opened from to l)
        (post_transfer-ok key from to amount (opened from to l) h).2) [
          | inl fresh ↦ fresh.is_new
          | inr old ↦ cc (unused, rw same_log at old.found)
        ]
