-- ===== src/Withdrawals/Held.antt =====
-- What ties the withdrawal requests to the ledger.
use myturn_webportal.Prelude.{
  ℕ, ◌+◌, ◌≤◌, ◌<◌, ◌≡◌, ◌≢◌, sym, ◌∙◌, Bool, true, false, none, some, arith, if◌then◌else◌, ◌==◌,
  All, find_first, ok,
}
use myturn_webportal.Prelude.Int.{pos, ◌+ℤ◌, neg, int_laws}
use myturn_webportal.Ledger.Account.{AccountKey, key_eq, key_beq, key_beq_iff, withdrawal_clearing}
use myturn_webportal.Ledger.Accounts.{get_balance}
use myturn_webportal.Ledger.Balances.{post_journal-other, post_journal-is_new, transfer-balance}
use myturn_webportal.Ledger.Posting.Journal.{
  IdempotencyKey, withdrawal_hold, withdrawal_complete, withdrawal_release,
}
use myturn_webportal.Ledger.Posting.Transfer.{transfer_lines}
use myturn_webportal.Ledger.Posting.{Ledger, Posted, find_transaction, post_journal_in_tx}
use myturn_webportal.Store.Rows.{WithdrawalRequest}
use myturn_webportal.Store.Lemmas.{
  sum_by, HasUniqueIds, sum_by-update, HasUniqueIds-update, All-update, All-update-other,
}
use myturn_webportal.Store.{update_rows, Db}
use myturn_webportal.Wallet.{is_in_flight}

abbrev pub IsUnused : IdempotencyKey → Ledger → Type 0
IsUnused key l = find_transaction key l.transactions ≡ none

-- An amount above 0, taken from an ordinary account; while it is in flight, neither of the keys that
-- end it has been used.
pub record IsSound (l : Ledger) (w : WithdrawalRequest) : Type 0 where
  pub positive : 1 ≤ w.amount
  pub source : w.ledger_account ≢ withdrawal_clearing
  pub can_complete : is_in_flight w.status ≡ true → IsUnused (withdrawal_complete w.id) l
  pub can_release : is_in_flight w.status ≡ true → IsUnused (withdrawal_release w.id) l

pub record IsFresh (l : Ledger) (id : ℕ) : Type 0 where
  pub hold : IsUnused (withdrawal_hold id) l
  pub complete : IsUnused (withdrawal_complete id) l
  pub release : IsUnused (withdrawal_release id) l

abbrev pub in_flight_amount : WithdrawalRequest → ℕ
in_flight_amount w = if is_in_flight w.status then w.amount else 0

-- The clearing account holds the amounts of the requests that are PENDING or PROCESSING.
pub record IsHeld (db : Db) : Type 0 where
  pub unique_ids : HasUniqueIds (λ w. w.id) db.withdrawals
  pub below : All (λ w. w.id < db.next_id) db.withdrawals
  pub sound : All (IsSound db.ledger) db.withdrawals
  pub fresh : (id : ℕ) → db.next_id ≤ id → IsFresh db.ledger id
  pub cleared :
      get_balance withdrawal_clearing db.ledger ≡ pos (sum_by in_flight_amount db.withdrawals)

drained :
    (old new amount : ℕ)
    → new + amount ≡ old + 0
    → pos old +ℤ (neg (pos amount) +ℤ (pos 0 +ℤ pos 0)) ≡ pos new
drained old new amount e = omega int_laws

-- The posting that ends a request: from the clearing account, under one of its two keys.
module _ (db db' : Db) (r : WithdrawalRequest) (f : WithdrawalRequest → WithdrawalRequest)
    (key : IdempotencyKey) (to : AccountKey) (opened : Ledger) {p : Posted}
    (q : WithdrawalRequest → Bool) (held : IsHeld db) (found : find_first q db.withdrawals ≡ some r)
    (in_flight : is_in_flight r.status ≡ true)
    (h : post_journal_in_tx key (transfer_lines withdrawal_clearing to (pos r.amount)) opened
      ≡ ok (p, db'.ledger))
    (unused : IsUnused key db.ledger) (same_log : opened.transactions ≡ db.ledger.transactions)
    (same_balance : get_balance withdrawal_clearing opened
      ≡ get_balance withdrawal_clearing db.ledger)
    (elsewhere : to ≢ withdrawal_clearing)
    (others_complete : (i : ℕ) → i ≢ r.id → key ≢ withdrawal_complete i)
    (others_release : (i : ℕ) → i ≢ r.id → key ≢ withdrawal_release i)
    (no_hold : (i : ℕ) → key ≢ withdrawal_hold i) where
  kept-IsUnused :
      (other : IdempotencyKey) → key ≢ other → IsUnused other db.ledger → IsUnused other db'.ledger
  kept-IsUnused other ne free =
      post_journal-other key other (transfer_lines withdrawal_clearing to (pos r.amount)) opened ne
        h
      ∙ rw same_log free

  is_new : p.duplicate ≡ false
  is_new =
      post_journal-is_new key (transfer_lines withdrawal_clearing to (pos r.amount)) opened
        (rw same_log unused) h

  other-IsSound : (w : WithdrawalRequest) → w.id ≢ r.id → IsSound db.ledger w → IsSound db'.ledger w
  other-IsSound w ne s = record {
    positive = s.positive;
    source = s.source;
    can_complete = λ flying.
        kept-IsUnused (withdrawal_complete w.id) (others_complete w.id ne) (s.can_complete flying);
    can_release = λ flying.
        kept-IsUnused (withdrawal_release w.id) (others_release w.id ne) (s.can_release flying);
  }

  pub closing-IsHeld :
      ((w : WithdrawalRequest) → (f w).id ≡ w.id)
      → is_in_flight (f r).status ≡ false
      → (f r).amount ≡ r.amount
      → (f r).ledger_account ≡ r.ledger_account
      → r.id < db.next_id
      → db'.withdrawals ≡ update_rows (λ w. w.id == r.id) f db.withdrawals
      → db'.next_id ≡ db.next_id
      → IsHeld db'
  closing-IsHeld keeps_id landed keeps_amount keeps_source low rows same_next = record {
    unique_ids = rw rows (
        HasUniqueIds-update (λ w. w.id) (λ w. w.id == r.id) f db.withdrawals keeps_id
          held.unique_ids);
    below =
        rw (rows, same_next)
          (All-update (λ w. w.id) (λ w. w.id < db.next_id) q f db.withdrawals r held.unique_ids
            found (λ lt. rw (keeps_id r) lt) held.below);
    sound = rw rows (
        All-update-other (λ w. w.id) (IsSound db.ledger) (IsSound db'.ledger) q f db.withdrawals r
          held.unique_ids found ended other-IsSound held.sound);
    fresh = λ i le.
        let free = held.fresh i (rw same_next at le) in
        let ne : i ≢ r.id = let bound = rw same_next at le in ground arith in
        record {
          hold = kept-IsUnused (withdrawal_hold i) (no_hold i) free.hold;
          complete = kept-IsUnused (withdrawal_complete i) (others_complete i ne) free.complete;
          release = kept-IsUnused (withdrawal_release i) (others_release i ne) free.release;
        };
    cleared =
        let sums =
          sum_by-update (λ w. w.id) in_flight_amount q f db.withdrawals r held.unique_ids found in
        let other : key_beq to withdrawal_clearing ≡ false =
          ground (arith, key_beq_iff to withdrawal_clearing) in
        let balance =
          transfer-balance key withdrawal_clearing to (pos r.amount) opened (λ e. elsewhere (sym e))
            h is_new withdrawal_clearing in
        rw rows (
          rw (other, same_balance, held.cleared) at balance
          ∙ drained _ _ r.amount (rw (in_flight, landed) at sums));
  }
    where
      ended : IsSound db.ledger r → IsSound db'.ledger (f r)
      ended s = record {
        positive = rw keeps_amount s.positive;
        source = rw keeps_source s.source;
        can_complete = λ flying. cc (landed, flying);
        can_release = λ flying. cc (landed, flying);
      }
