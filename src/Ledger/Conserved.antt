-- ===== src/Ledger/Conserved.antt =====
-- Operations of the ledger that move money and make none, and overdraw nothing.
use myturn_webportal.Prelude.{◌≡◌, ap, ◌∙◌, List, ok, Result}
use myturn_webportal.Prelude.Int.{ℤ}
use myturn_webportal.Dict.{total}
use myturn_webportal.Ledger.Account.{AccountKey, key_eq}
use myturn_webportal.Ledger.Accounts.{get_or_create, get_or_create-total, get_or_create-IsSolvent}
use myturn_webportal.Ledger.Moves.{move_between, move_between-total, move_between-IsSolvent}
use myturn_webportal.Ledger.Posting.Effect.{post_journal-total}
use myturn_webportal.Ledger.Posting.Journal.{IdempotencyKey}
use myturn_webportal.Ledger.Posting.Solvency.{IsSolvent, post_journal-IsSolvent}
use myturn_webportal.Ledger.Posting.Transfer.{transfer_lines, post_transfer-ok}
use myturn_webportal.Ledger.Posting.{PostingLine, Ledger, post_journal_in_tx, post_transfer_in_tx}

-- The sum of all balances is the same, and no account has gone below zero but the external one.
abbrev pub Conserves : Ledger → Ledger → Type 0
Conserves l l' =
    (total l'.accounts ≡ total l.accounts) × (IsSolvent l.accounts → IsSolvent l'.accounts)

pub Conserves-same : (l l' : Ledger) → l' ≡ l → Conserves l l'
Conserves-same l l' e = (ap (λ (x : Ledger). total x.accounts) e, λ solvent. rw e solvent)

pub Conserves-trans : (a b c : Ledger) → Conserves a b → Conserves b c → Conserves a c
Conserves-trans a b c (t, s) (t', s') = (t' ∙ t, λ solvent. s' (s solvent))

pub get_or_create-Conserves : (k : AccountKey) (l : Ledger) → Conserves l (get_or_create k l)
get_or_create-Conserves k l = (get_or_create-total k l, get_or_create-IsSolvent k l)

pub get_or_create_2-Conserves :
    (j k : AccountKey) (l : Ledger) → Conserves l (get_or_create k (get_or_create j l))
get_or_create_2-Conserves j k l =
    Conserves-trans l (get_or_create j l) (get_or_create k (get_or_create j l))
      (get_or_create-Conserves j l) (get_or_create-Conserves k (get_or_create j l))

pub get_or_create_4-Conserves :
    (i j k m : AccountKey) (l : Ledger)
    → Conserves l (get_or_create m (get_or_create k (get_or_create j (get_or_create i l))))
get_or_create_4-Conserves i j k m l =
    Conserves-trans l (get_or_create j (get_or_create i l))
      (get_or_create m (get_or_create k (get_or_create j (get_or_create i l))))
      (get_or_create_2-Conserves i j l)
      (get_or_create_2-Conserves k m (get_or_create j (get_or_create i l)))

-- A call that returns conserves.
abbrev pub IsConserving : {A : Type 0} → (Ledger → Result (A × Ledger)) → Type 0
IsConserving {A} f = (l : Ledger) (a : A) (l' : Ledger) → f l ≡ ok (a, l') → Conserves l l'

pub post_journal-IsConserving :
    (key : IdempotencyKey) (lines : List PostingLine) → IsConserving (post_journal_in_tx key lines)
post_journal-IsConserving key lines l p l' h =
    (post_journal-total key lines l h, λ solvent. post_journal-IsSolvent key lines l solvent h)

pub post_transfer-IsConserving :
    (key : IdempotencyKey) (from to : AccountKey) (amount : ℤ)
    → IsConserving (post_transfer_in_tx key from to amount)
post_transfer-IsConserving key from to amount l p l' h =
    post_journal-IsConserving key (transfer_lines from to amount) l p l'
      (post_transfer-ok key from to amount l h).2

pub move_between-IsConserving :
    (key : IdempotencyKey) (from to : AccountKey) (amount : ℤ)
    → IsConserving (move_between key from to amount)
move_between-IsConserving key from to amount l p l' h = (
  move_between-total key from to amount l h,
  λ solvent. move_between-IsSolvent key from to amount l solvent h,
)
