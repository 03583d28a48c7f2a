-- ===== src/Withdrawals/Hold/Start.antt =====
-- What a hold does: the new request, the two accounts, and what is then left to withdraw.
use myturn_webportal.Prelude.{ℕ, suc, ◌+◌, ◌≤◌, ◌≡◌, ◌≢◌, ap, ◌∙◌, false, ◌∷◌, arith, ok, Result}
use myturn_webportal.Prelude.Int.{pos, ◌+ℤ◌, int_laws}
use myturn_webportal.Txn.{>>=-eq-ok}
use myturn_webportal.Ledger.Account.{AccountKey, key_beq, key_beq_iff, withdrawal_clearing}
use myturn_webportal.Ledger.Accounts.{
  get_or_create, get_balance, get_or_create-balance, get_or_create-transactions,
}
use myturn_webportal.Ledger.Balances.{post_journal-is_new, post_journal-other, transfer-balance}
use myturn_webportal.Ledger.Posting.Effect.{delta_on}
use myturn_webportal.Ledger.Posting.Journal.{
  IdempotencyKey, withdrawal_hold, withdrawal_complete, withdrawal_release,
}
use myturn_webportal.Ledger.Posting.Transfer.{transfer_lines, post_transfer-ok}
use myturn_webportal.Ledger.Posting.{Posted, post_journal_in_tx}
use myturn_webportal.Store.Rows.{WithdrawalRequest}
use myturn_webportal.Store.Lemmas.{in_ledger-eq-ok, All-weaken, IsAbsent-below, sum_by}
use myturn_webportal.Store.{Db, in_ledger}
use myturn_webportal.Withdrawals.Held.{IsHeld, IsSound, IsUnused, in_flight_amount}
use myturn_webportal.Withdrawals.Hold.{HoldParams, new_withdrawal, hold_transfer, hold_in_tx}

pub record Taken (params : HoldParams) (source : AccountKey) (amount now : ℕ) (db db' : Db)
    (res : WithdrawalRequest) : Type 0 where
  pub posted : Posted
  pub positive : 1 ≤ amount
  pub differ : source ≢ withdrawal_clearing
  pub posting :
      post_journal_in_tx
        (withdrawal_hold db.next_id)
        (transfer_lines source withdrawal_clearing (pos amount))
        (get_or_create withdrawal_clearing db.ledger)
      ≡ ok (posted, db'.ledger)
  pub result : res ≡ new_withdrawal params source amount now db.next_id
  pub rows : db'.withdrawals ≡ new_withdrawal params source amount now db.next_id ∷ db.withdrawals
  pub next : db'.next_id ≡ suc db.next_id

module _ (params : HoldParams) (source : AccountKey) (amount now : ℕ) (db db' : Db)
    (res : WithdrawalRequest) (h : hold_in_tx params source amount now db ≡ ok (res, db')) where
  pub hold-ok : Taken params source amount now db db' res
  unfolding hold_in_tx
  hold-ok =
      let (p, db₁, moved, h₁) =
        >>=-eq-ok (in_ledger (hold_transfer source amount db.next_id))
          (λ _ after. ok (
            new_withdrawal params source amount now db.next_id,
            record after {
              withdrawals = new_withdrawal params source amount now db.next_id ∷ after.withdrawals;
              next_id = suc db.next_id;
            },
          ))
          db h in
      let (posting, same) = in_ledger-eq-ok (hold_transfer source amount db.next_id) db moved in
      finish p db₁ posting same h₁
    where
      finish :
          (p : Posted) (db₁ : Db)
          → hold_transfer source amount db.next_id db.ledger ≡ ok (p, db₁.ledger)
          → db₁ ≡ record db { ledger = db₁.ledger }
          → ◌≡◌ {A = Result (WithdrawalRequest × Db)}
              (ok (
                new_withdrawal params source amount now db.next_id,
                record db₁ {
                  withdrawals =
                      new_withdrawal params source amount now db.next_id ∷ db₁.withdrawals;
                  next_id = suc db.next_id;
                },
              ))
              (ok (res, db'))
          → Taken params source amount now db db' res
      finish p db₁ posting same h₁ =
          let (positive, differ, journal) =
            post_transfer-ok (withdrawal_hold db.next_id) source withdrawal_clearing (pos amount)
              (get_or_create withdrawal_clearing db.ledger) posting in
          let ledger_same : db₁.ledger ≡ db'.ledger = ground arith in
          record {
            posted = p;
            positive = omega arith;
            differ = differ;
            posting = rw (← ledger_same) journal;
            result = ground arith;
            rows = ground arith;
            next = ground arith;
          }

  module _ (held : IsHeld db) where
    hold-is_new : hold-ok.posted.duplicate ≡ false
    hold-is_new =
        post_journal-is_new (withdrawal_hold db.next_id) _
          (get_or_create withdrawal_clearing db.ledger)
          (rw (get_or_create-transactions withdrawal_clearing db.ledger)
            ((held.fresh db.next_id (omega arith)).hold))
          hold-ok.posting

    -- The hold moves the amount from the source to the clearing account, and nothing else.
    pub hold_in_tx-moves :
        (k : AccountKey)
        → get_balance k db'.ledger
          ≡ get_balance k db.ledger
            +ℤ delta_on k (transfer_lines source withdrawal_clearing (pos amount))
    hold_in_tx-moves k =
        transfer-balance (withdrawal_hold db.next_id) source withdrawal_clearing (pos amount)
          (get_or_create withdrawal_clearing db.ledger) hold-ok.differ hold-ok.posting hold-is_new k
        ∙ ap (λ b. b +ℤ delta_on k (transfer_lines source withdrawal_clearing (pos amount)))
            (get_or_create-balance withdrawal_clearing k db.ledger)

    kept-IsUnused :
        (other : IdempotencyKey)
        → withdrawal_hold db.next_id ≢ other
        → IsUnused other db.ledger
        → IsUnused other db'.ledger
    kept-IsUnused other ne free =
        post_journal-other (withdrawal_hold db.next_id) other _
          (get_or_create withdrawal_clearing db.ledger) ne hold-ok.posting
        ∙ rw (get_or_create-transactions withdrawal_clearing db.ledger) free

    kept-IsSound : (w : WithdrawalRequest) → IsSound db.ledger w → IsSound db'.ledger w
    kept-IsSound w s = record {
      positive = s.positive;
      source = s.source;
      can_complete =
          λ flying. kept-IsUnused (withdrawal_complete w.id) (ground arith) (s.can_complete flying);
      can_release =
          λ flying. kept-IsUnused (withdrawal_release w.id) (ground arith) (s.can_release flying);
    }

    first-IsSound : IsSound db'.ledger (new_withdrawal params source amount now db.next_id)
    unfolding new_withdrawal
    first-IsSound =
        let free = held.fresh db.next_id (omega arith) in
        record {
          positive = hold-ok.positive;
          source = hold-ok.differ;
          can_complete =
              λ _. kept-IsUnused (withdrawal_complete db.next_id) (ground arith) free.complete;
          can_release =
              λ _. kept-IsUnused (withdrawal_release db.next_id) (ground arith) free.release;
        }

    held_sum : (old amount : ℕ) → pos old +ℤ (pos 0 +ℤ (pos amount +ℤ pos 0)) ≡ pos (amount + old)
    held_sum old amount = omega int_laws

    -- A hold keeps the clearing account at the sum of the requests in flight.
    pub hold_in_tx-IsHeld : IsHeld db'
    unfolding new_withdrawal
    hold_in_tx-IsHeld =
        let taken = hold-ok in
        record {
          unique_ids =
              rw taken.rows
                (IsAbsent-below (λ w. w.id) db.next_id db.withdrawals held.below, held.unique_ids);
          below =
              rw (taken.rows, taken.next)
                (omega arith, All-weaken _ _ db.withdrawals (λ w lt. omega arith) held.below);
          sound = rw taken.rows (
            first-IsSound,
            All-weaken (IsSound db.ledger) (IsSound db'.ledger) db.withdrawals kept-IsSound
                held.sound,
          );
          fresh = λ i le.
              let above : suc db.next_id ≤ i = rw taken.next at le in
              let free = held.fresh i (omega arith) in
              record {
                hold = kept-IsUnused (withdrawal_hold i) (ground arith) free.hold;
                complete = kept-IsUnused (withdrawal_complete i) (ground arith) free.complete;
                release = kept-IsUnused (withdrawal_release i) (ground arith) free.release;
              };
          cleared =
              let other : key_beq source withdrawal_clearing ≡ false =
                let ne = taken.differ in ground (arith, key_beq_iff source withdrawal_clearing) in
              rw taken.rows (
                (rw (other, held.cleared) at (hold_in_tx-moves withdrawal_clearing))
                ∙ held_sum (sum_by in_flight_amount db.withdrawals) amount);
        }
