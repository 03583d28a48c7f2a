-- ===== src/Ledger/Posting/Solvency.antt =====
-- Why assertNonNegativeAfterDelta is enough: the balances that the first loop projects are those
-- that the second loop writes.
use mathlib.Core.Option.{some-injective}
use myturn_webportal.Prelude.{
  ◌≡◌, refl, sym, ap, ◌∙◌, ◌⊎◌, inl, inr, true, false, Option, none, some, List, [], ◌∷◌, arith,
  Bool-cases, ok, Result, >>=-eq-ok, or_throw, account_not_found,
}
use myturn_webportal.Prelude.Int.{ℤ, pos, ◌+ℤ◌, ◌≤ℤ◌}
use myturn_webportal.Dict.{Dict, lookup, insert, lookup-insert}
use myturn_webportal.Ledger.Account.{AccountKey, key_eq, key_beq, key_beq_iff, is_external}
use myturn_webportal.Ledger.Posting.Journal.{IdempotencyKey}
use myturn_webportal.Ledger.Posting.Cases.{post_journal-cases}
use myturn_webportal.Ledger.Posting.Effect.{apply_lines-cons}
use myturn_webportal.Ledger.Posting.{
  PostingLine, LedgerLine, Ledger, Posted, base_balance, check_found, check_lines,
  assert_non_negative_after_delta, apply_lines, post_journal_in_tx,
}

-- No account but the external one is below zero.
abbrev pub IsSolvent : Dict AccountKey ℤ → Type 0
IsSolvent accounts =
    (k : AccountKey) (b : ℤ) → lookup k accounts ≡ some b → is_external k ≡ false → pos 0 ≤ℤ b

abbrev effective : Option ℤ → Option ℤ → Option ℤ
effective none stored = stored
effective (some v) stored = some v

-- The first loop's projection over the stored accounts shows what the second loop has written.
abbrev Projects : Dict AccountKey ℤ → Dict AccountKey ℤ → Dict AccountKey ℤ → Type 0
Projects stored projected now =
    (k : AccountKey)
    → is_external k ≡ false
    → lookup k now ≡ effective (lookup k projected) (lookup k stored)

effective-some :
    (o : Option ℤ) (stored : Option ℤ) (b : ℤ)
    → stored ≡ some b
    → effective o stored ≡ some (base_balance o b)
effective-some none stored b h = h
effective-some (some v) stored b h = refl

-- A line on the external account changes no other account, and is not projected.
Projects-external :
    (l : PostingLine) (stored projected now : Dict AccountKey ℤ) (y : ℤ)
    → is_external l.account ≡ true
    → Projects stored projected now
    → Projects stored projected (insert l.account y now)
Projects-external l stored projected now y ext sim k internal =
    elim (Bool-cases (key_beq l.account k)) [
      | inl same ↦ cc (ap is_external ((key_beq_iff l.account k).0 same), ext, internal)
      | inr other ↦ rw (lookup-insert l.account k y now, other) (sim k internal)
    ]

-- Any other line is projected and written alike.
Projects-insert :
    (a : AccountKey) (stored projected now : Dict AccountKey ℤ) (y : ℤ)
    → Projects stored projected now
    → Projects stored (insert a y projected) (insert a y now)
Projects-insert a stored projected now y sim k internal = elim (Bool-cases (key_beq a k)) [
  | inl same ↦ rw (lookup-insert a k y now, lookup-insert a k y projected, same)
  | inr other ↦ rw (lookup-insert a k y now, lookup-insert a k y projected, other) (sim k internal)
]

-- A line that passes the check: its account is there, and is external or stays at zero or more.
pub check_found-cases :
    (l : PostingLine) (b : ℤ) (projected : Dict AccountKey ℤ) {next : Dict AccountKey ℤ}
    → check_found l b projected ≡ ok next
    → let y = base_balance (lookup l.account projected) b +ℤ l.delta in
      ((is_external l.account ≡ true) × (projected ≡ next))
      ⊎ ((is_external l.account ≡ false) × (pos 0 ≤ℤ y) × (insert l.account y projected ≡ next))
check_found-cases l b projected h = ground arith

pub assert-cases :
    (stored : Dict AccountKey ℤ) (l : PostingLine) (projected : Dict AccountKey ℤ)
    {next : Dict AccountKey ℤ}
    → assert_non_negative_after_delta stored l projected ≡ ok next
    → (b : ℤ) × (lookup l.account stored ≡ some b) × (check_found l b projected ≡ ok next)
unfolding assert_non_negative_after_delta
assert-cases stored l projected h =
    let (b, found, checked) =
      >>=-eq-ok (or_throw (lookup l.account stored) account_not_found) _ h in
    (b, ground arith, checked)

-- One line: `x` is the balance that the second loop reads.
Projects-line :
    (l : PostingLine) (stored projected now : Dict AccountKey ℤ) (x : ℤ) {next : Dict AccountKey ℤ}
    → Projects stored projected now
    → lookup l.account now ≡ some x
    → assert_non_negative_after_delta stored l projected ≡ ok next
    → Projects stored next (insert l.account (x +ℤ l.delta) now)
      × (is_external l.account ≡ false → pos 0 ≤ℤ x +ℤ l.delta)
Projects-line l stored projected now x {next} sim found h =
    let (b, stored_b, checked) = assert-cases stored l projected h in
    elim (check_found-cases l b projected checked) [
      | inl (ext, same_next) ↦ (
        rw (← same_next) (Projects-external l stored projected now (x +ℤ l.delta) ext sim),
        λ internal. cc (ext, internal),
      )
      | inr (internal, enough, same_next) ↦
          let base_x : base_balance (lookup l.account projected) b ≡ x = some-injective _ _ (
            sym (effective-some (lookup l.account projected) (lookup l.account stored) b stored_b)
            ∙ sym (sim l.account internal)
            ∙ found) in
          (
            rw (← same_next, base_x)
                (Projects-insert l.account stored projected now (x +ℤ l.delta) sim),
            λ _. rw base_x at enough,
          )
    ]

pub insert-IsSolvent :
    (a : AccountKey) (y : ℤ) (now : Dict AccountKey ℤ)
    → IsSolvent now
    → (is_external a ≡ false → pos 0 ≤ℤ y)
    → IsSolvent (insert a y now)
insert-IsSolvent a y now solvent positive k b found internal = elim (Bool-cases (key_beq a k)) [
  | inl same ↦
      let a-k = (key_beq_iff a k).0 same in
      let y-b : y ≡ b = some-injective _ _ (rw (lookup-insert a k y now, same) at found) in
      rw (← y-b) (positive (rw a-k internal))
  | inr other ↦ solvent k b (rw (lookup-insert a k y now, other) at found) internal
]

Projects-nothing : (accounts : Dict AccountKey ℤ) → Projects accounts [] accounts
unfolding lookup
Projects-nothing accounts k internal = refl

pub check_lines-cons :
    (stored : Dict AccountKey ℤ) (l : PostingLine) (ls : List PostingLine)
    (projected : Dict AccountKey ℤ) {final : Dict AccountKey ℤ}
    → check_lines stored (l ∷ ls) projected ≡ ok final
    → (next : Dict AccountKey ℤ) × (assert_non_negative_after_delta stored l projected ≡ ok next)
      × (check_lines stored ls next ≡ ok final)
unfolding check_lines
check_lines-cons stored l ls projected c = ground arith

apply_lines-IsSolvent :
    (ls : List PostingLine) (stored projected now : Dict AccountKey ℤ) {final : Dict AccountKey ℤ}
    {rows : List LedgerLine} {after : Dict AccountKey ℤ}
    → Projects stored projected now
    → IsSolvent now
    → check_lines stored ls projected ≡ ok final
    → apply_lines ls now ≡ ok (rows, after)
    → IsSolvent after
unfolding check_lines apply_lines
apply_lines-IsSolvent [] stored projected now sim solvent c h = rw (nothing_written h) solvent
  where
    nothing_written :
        {rows : List LedgerLine} {after : Dict AccountKey ℤ}
        → ◌≡◌ {A = Result (List LedgerLine × Dict AccountKey ℤ)} (ok ([], now)) (ok (rows, after))
        → after ≡ now
    nothing_written e = ground arith
apply_lines-IsSolvent (l ∷ ls) stored projected now sim solvent c h =
    let (x, rest, found, done, _) = apply_lines-cons l ls now h in
    let (next, checked, c') = check_lines-cons stored l ls projected c in
    let (sim', positive) = Projects-line l stored projected now x sim found checked in
    apply_lines-IsSolvent ls stored next (insert l.account (x +ℤ l.delta) now) sim'
      (insert-IsSolvent l.account (x +ℤ l.delta) now solvent positive) c' done

-- If every account but the external one holds at least 0, then so it does after any journal that is
-- posted.
pub post_journal-IsSolvent :
    (key : IdempotencyKey) (lines : List PostingLine) (before : Ledger) {p : Posted}
    {after : Ledger}
    → IsSolvent before.accounts
    → post_journal_in_tx key lines before ≡ ok (p, after)
    → IsSolvent after.accounts
post_journal-IsSolvent key lines before {p} {after} solvent h =
    elim (post_journal-cases key lines before h) [
      | inl fresh ↦
          apply_lines-IsSolvent lines before.accounts [] before.accounts
            (Projects-nothing before.accounts) solvent fresh.checked fresh.applied
      | inr old ↦ rw old.unchanged solvent
    ]
