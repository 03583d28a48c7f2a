-- ===== src/Withdrawals/Settle/Outcome.antt =====
-- What ending a withdrawal does to the ledger, and that it keeps the clearing account exact.
use myturn_webportal.Prelude.{ℕ, ◌<◌, ◌≡◌, refl, ap, ◌∙◌, inl, inr, arith, ok}
use myturn_webportal.Prelude.Int.{pos}
use myturn_webportal.Ledger.Account.{AccountKey, withdrawal_clearing, system_external}
use myturn_webportal.Ledger.Accounts.{
  get_or_create, get_balance, get_or_create-balance, get_or_create-transactions,
}
use myturn_webportal.Ledger.Moves.{opened}
use myturn_webportal.Ledger.Posting.Journal.{withdrawal_complete, withdrawal_release}
use myturn_webportal.Ledger.Posting.Transfer.{post_transfer-ok}
use myturn_webportal.Ledger.Posting.{Ledger}
use myturn_webportal.Store.Rows.{WithdrawalRequest, WithdrawalStatus}
use myturn_webportal.Store.Lemmas.{All-find}
use myturn_webportal.Store.{Db}
use myturn_webportal.Withdrawals.Held.{IsHeld, IsSound, closing-IsHeld}
use myturn_webportal.Withdrawals.Settle.{
  find_withdrawal, completed_row, failed_row, pay_out, give_back, complete_in_tx, fail_in_tx,
}
use myturn_webportal.Withdrawals.Settle.Cases.{EndCases, complete_in_tx-cases, fail_in_tx-cases}

abbrev opened_for_payment : Ledger → Ledger
opened_for_payment l = opened withdrawal_clearing system_external l

pay_out-log : (l : Ledger) → (opened_for_payment l).transactions ≡ l.transactions
pay_out-log l =
    get_or_create-transactions system_external (get_or_create withdrawal_clearing l)
    ∙ get_or_create-transactions withdrawal_clearing l

pay_out-balance :
    (k : AccountKey) (l : Ledger) → get_balance k (opened_for_payment l) ≡ get_balance k l
pay_out-balance k l =
    get_or_create-balance system_external k (get_or_create withdrawal_clearing l)
    ∙ get_or_create-balance withdrawal_clearing k l

module _ (id : ℕ) (db db' : Db) (res : WithdrawalRequest) (held : IsHeld db) where
  -- Completing keeps the clearing account at the sum of the requests in flight.
  pub complete_in_tx-IsHeld : (ref : ℕ) → complete_in_tx id ref db ≡ ok (res, db') → IsHeld db'
  unfolding find_withdrawal
  complete_in_tx-IsHeld ref h = by_case (complete_in_tx-cases id ref db h)
    where
      by_case :
          EndCases pay_out (completed_row ref) WithdrawalStatus.completed id db db' res → IsHeld db'
      by_case (w, found, inl (_, same, _)) = rw same held
      by_case (w, found, inr e) =
          let s = All-find (IsSound db.ledger) _ db.withdrawals found held.sound in
          closing-IsHeld db db' w (completed_row ref) (withdrawal_complete w.id) system_external
            (opened_for_payment db.ledger) _ held found e.in_flight e.posting
            (s.can_complete e.in_flight) (pay_out-log db.ledger)
            (pay_out-balance withdrawal_clearing db.ledger) (ground arith) (λ i ne. ground arith)
            (λ i ne. ground arith) (λ i. ground arith) (λ x. refl) refl refl refl
            (All-find (λ x. x.id < db.next_id) _ db.withdrawals found held.below)
            (ap (λ d. d.withdrawals) e.state) (ap (λ d. d.next_id) e.state)

  -- Failing a withdrawal keeps the clearing account at the sum of the requests in flight.
  pub fail_in_tx-IsHeld : fail_in_tx id db ≡ ok (res, db') → IsHeld db'
  unfolding find_withdrawal
  fail_in_tx-IsHeld h = by_case (fail_in_tx-cases id db h)
    where
      by_case : EndCases give_back failed_row WithdrawalStatus.failed id db db' res → IsHeld db'
      by_case (w, found, inl (_, same, _)) = rw same held
      by_case (w, found, inr e) =
          let s = All-find (IsSound db.ledger) _ db.withdrawals found held.sound in
          let l = get_or_create withdrawal_clearing db.ledger in
          let (_, ne, posting) =
            post_transfer-ok (withdrawal_release w.id) withdrawal_clearing w.ledger_account
              (pos w.amount) l e.posting in
          closing-IsHeld db db' w failed_row (withdrawal_release w.id) w.ledger_account l _ held
            found e.in_flight posting (s.can_release e.in_flight)
            (get_or_create-transactions withdrawal_clearing db.ledger)
            (get_or_create-balance withdrawal_clearing withdrawal_clearing db.ledger) s.source
            (λ i ne. ground arith) (λ i ne. ground arith) (λ i. ground arith) (λ x. refl) refl refl
            refl (All-find (λ x. x.id < db.next_id) _ db.withdrawals found held.below)
            (ap (λ d. d.withdrawals) e.state) (ap (λ d. d.next_id) e.state)
