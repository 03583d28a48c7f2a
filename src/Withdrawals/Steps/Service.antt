-- ===== src/Withdrawals/Steps/Service.antt =====
-- The service's methods, whether they return or throw, are made of the steps.
use myturn_webportal.Prelude.{
  ℕ, ◌≡◌, refl, ap, ◌∙◌, inl, inr, Bool, true, false, Option, none, some, Bool-cases, ok, err,
  Result, or_throw, withdrawal_not_found, disbursement_failed, provider_ref_required,
}
use myturn_webportal.Act.{
  Act, ◌>>=◌, ◌>>◌, continue, rescue, committed, transaction, lift, return, modify,
}
use myturn_webportal.Store.Rows.{WithdrawalRequest, WithdrawalStatus}
use myturn_webportal.Store.{Db}
use myturn_webportal.Wallet.{is_in_flight}
use myturn_webportal.Withdrawals.Settle.{
  NotificationType, Notifier, notify, withdrawal_completed, withdrawal_failed,
  withdrawal_processing, find_withdrawal, set_withdrawal, complete_in_tx,
  complete_withdrawal_internal, fail_in_tx, fail_open, fail_found, fail_withdrawal_internal,
  ProviderOutcome, transfer_completed, transfer_failed, transfer_pending, settle_open, settle_found,
  settle_row, settle_by_provider_ref, find_by_ref,
}
use myturn_webportal.Withdrawals.Disburse.{
  Transfer, DisbursementProvider, Next, answer, then_fail, then_complete, processing_row,
  after_accept, after_pending, reread, attempt, finish_disbursement, start_automatic_disbursement,
}
use myturn_webportal.Withdrawals.Steps.{
  Step, Steps, stay, then_step, complete_step, fail_step, process_step, find_withdrawal-id,
}

pub Steps-join : {a b c : Db} → Steps a b → Steps b c → Steps a c
Steps-join p stay = p
Steps-join p (then_step q s) = then_step (Steps-join p q) s

-- From every state, what the method leaves is reached by steps.
abbrev pub IsStepwise : {A : Type 0} → Act Db A → Type 0
IsStepwise m = (db : Db) → Steps db (m db).1

continue-Steps :
    {A B : Type 0} (f : A → Act Db B) (db : Db) (r : Result A × Db)
    → ((a : A) → IsStepwise (f a))
    → Steps db r.1
    → Steps db (continue f r).1
continue-Steps f db (ok a, s) g p = Steps-join p (g a s)
continue-Steps f db (err e, s) g p = p

bind-IsStepwise :
    {A B : Type 0} (m : Act Db A) (f : A → Act Db B)
    → IsStepwise m
    → ((a : A) → IsStepwise (f a))
    → IsStepwise (m >>= f)
bind-IsStepwise m f p g db = continue-Steps f db (m db) g (p db)

committed-Steps :
    {A : Type 0} (db : Db) (r : Result (A × Db))
    → ((a : A) (db' : Db) → r ≡ ok (a, db') → Step db db')
    → Steps db (committed db r).1
committed-Steps db (ok (a, db')) step = then_step stay (step a db' refl)
committed-Steps db (err e) step = stay

notify-IsStepwise :
    (notifier : Notifier) (id : ℕ) (kind : NotificationType) → IsStepwise (notify notifier id kind)
unfolding notify
notify-IsStepwise notifier id kind db = stay

complete-IsStepwise :
    (notifier : Notifier) (id : ℕ) (ref : Option ℕ)
    → IsStepwise (complete_withdrawal_internal notifier id ref)
unfolding complete_withdrawal_internal
complete-IsStepwise notifier id ref =
    bind-IsStepwise (lift (or_throw ref provider_ref_required)) _ (λ db. stay)
      λ r.
        bind-IsStepwise (transaction (complete_in_tx id r)) _
          (λ db.
            committed-Steps db (complete_in_tx id r db) (λ a db' h. complete_step id r a db' h))
          λ updated.
            bind-IsStepwise (notify notifier updated.id withdrawal_completed) _
              (notify-IsStepwise notifier updated.id withdrawal_completed) (λ _ db. stay)

fail_open-IsStepwise : (notifier : Notifier) (id : ℕ) → IsStepwise (fail_open notifier id)
unfolding fail_open
fail_open-IsStepwise notifier id =
    bind-IsStepwise (transaction (fail_in_tx id)) _
      (λ db. committed-Steps db (fail_in_tx id db) (λ a db' h. fail_step id a db' h))
      λ updated.
        bind-IsStepwise (notify notifier updated.id withdrawal_failed) _
          (notify-IsStepwise notifier updated.id withdrawal_failed) (λ _ db. stay)

fail_found-IsStepwise :
    (notifier : Notifier) (w : WithdrawalRequest) (s : WithdrawalStatus)
    → IsStepwise (fail_found notifier w s)
unfolding fail_found
fail_found-IsStepwise notifier w WithdrawalStatus.failed db = stay
fail_found-IsStepwise notifier w WithdrawalStatus.completed db = stay
fail_found-IsStepwise notifier w WithdrawalStatus.pending db = fail_open-IsStepwise notifier w.id db
fail_found-IsStepwise notifier w WithdrawalStatus.processing db =
    fail_open-IsStepwise notifier w.id db

fail-IsStepwise : (notifier : Notifier) (id : ℕ) → IsStepwise (fail_withdrawal_internal notifier id)
unfolding fail_withdrawal_internal
fail-IsStepwise notifier id db =
    bind-IsStepwise (lift (or_throw (find_withdrawal id db.withdrawals) withdrawal_not_found)) _
      (λ db₁. stay) (λ w. fail_found-IsStepwise notifier w w.status) db

settle_open-IsStepwise :
    (notifier : Notifier) (ref : ℕ) (outcome : Bool) (w : WithdrawalRequest)
    → IsStepwise (settle_open notifier ref outcome w)
unfolding settle_open
settle_open-IsStepwise notifier ref true w =
    bind-IsStepwise (complete_withdrawal_internal notifier w.id (some ref)) _
      (complete-IsStepwise notifier w.id (some ref)) (λ _ db. stay)
settle_open-IsStepwise notifier ref false w =
    bind-IsStepwise (fail_withdrawal_internal notifier w.id) _ (fail-IsStepwise notifier w.id)
      (λ _ db. stay)

settle_found-IsStepwise :
    (notifier : Notifier) (ref : ℕ) (outcome : Bool) (w : WithdrawalRequest) (s : WithdrawalStatus)
    → IsStepwise (settle_found notifier ref outcome w s)
unfolding settle_found
settle_found-IsStepwise notifier ref outcome w WithdrawalStatus.completed db = stay
settle_found-IsStepwise notifier ref outcome w WithdrawalStatus.failed db = stay
settle_found-IsStepwise notifier ref outcome w WithdrawalStatus.pending db =
    settle_open-IsStepwise notifier ref outcome w db
settle_found-IsStepwise notifier ref outcome w WithdrawalStatus.processing db =
    settle_open-IsStepwise notifier ref outcome w db

settle_row-IsStepwise :
    (notifier : Notifier) (ref : ℕ) (outcome : Bool) (w : Option WithdrawalRequest)
    → IsStepwise (settle_row notifier ref outcome w)
unfolding settle_row
settle_row-IsStepwise notifier ref outcome none db = stay
settle_row-IsStepwise notifier ref outcome (some w) db =
    settle_found-IsStepwise notifier ref outcome w w.status db

-- A settlement by the webhook or by polling, whatever it is called with and whether or not it
-- throws, leaves a database that the steps reach.
pub settle-IsStepwise :
    (notifier : Notifier) (ref : Option ℕ) (outcome : Bool)
    → IsStepwise (settle_by_provider_ref notifier ref outcome)
unfolding settle_by_provider_ref
settle-IsStepwise notifier none outcome db = stay
settle-IsStepwise notifier (some ref) outcome db =
    settle_row-IsStepwise notifier ref outcome (find_by_ref ref db.withdrawals) db

reread-IsStepwise : (id : ℕ) → IsStepwise (reread id)
unfolding reread
reread-IsStepwise id db = stay

after_accept-IsStepwise :
    (notifier : Notifier) (provider : DisbursementProvider) (w : WithdrawalRequest) (ref : ℕ)
    (o : ProviderOutcome)
    → IsStepwise (after_accept notifier provider w ref o)
unfolding after_accept after_pending
after_accept-IsStepwise notifier provider w ref transfer_failed db = stay
after_accept-IsStepwise notifier provider w ref transfer_completed db = stay
after_accept-IsStepwise notifier provider w ref transfer_pending db =
    elim (Bool-cases provider.is_mock) [
      | inl mock ↦ rw mock (
          bind-IsStepwise (settle_by_provider_ref notifier (some ref) true) (λ _. reread w.id)
            (settle-IsStepwise notifier (some ref) true) (λ _. reread-IsStepwise w.id) db)
      | inr real ↦ rw real stay
    ]

attempt-Steps :
    (notifier : Notifier) (provider : DisbursementProvider) (w : WithdrawalRequest) (db : Db)
    → find_withdrawal w.id db.withdrawals ≡ some w
    → is_in_flight w.status ≡ true
    → Steps db (attempt notifier provider w db).1
unfolding attempt
attempt-Steps notifier provider w db found flying = by_answer (provider.request_transfer w)
  where
    by_answer :
        (o : Option Transfer)
        → Steps db
            (continue {B = Next}
              (λ transfer.
                modify (set_withdrawal (processing_row transfer.provider_ref) w.id)
                >> (notify notifier w.id withdrawal_processing
                    >> after_accept notifier provider w transfer.provider_ref transfer.status))
              (or_throw o disbursement_failed, db)).1
    by_answer none = stay
    by_answer (some transfer) =
        Steps-join (then_step stay (process_step transfer.provider_ref w found flying)) (
          bind-IsStepwise (notify notifier w.id withdrawal_processing) _
            (notify-IsStepwise notifier w.id withdrawal_processing)
            (λ _. after_accept-IsStepwise notifier provider w transfer.provider_ref transfer.status)
            (set_withdrawal (processing_row transfer.provider_ref) w.id db))

rescue-Steps :
    (db : Db) (r : Result Next × Db) → Steps db r.1 → Steps db (rescue (return then_fail) r).1
rescue-Steps db (ok a, s) p = p
rescue-Steps db (err e, s) p = p

finish-IsStepwise :
    (notifier : Notifier) (id : ℕ) (next : Next) → IsStepwise (finish_disbursement notifier id next)
unfolding finish_disbursement
finish-IsStepwise notifier id (answer w) db = stay
finish-IsStepwise notifier id then_fail db = fail-IsStepwise notifier id db
finish-IsStepwise notifier id (then_complete ref) db = complete-IsStepwise notifier id (some ref) db

-- A disbursement of a request in flight, whatever the provider and the notifications do, leaves a
-- database that the steps reach.
pub start-Steps :
    (notifier : Notifier) (provider : DisbursementProvider) (id : ℕ) (w : WithdrawalRequest)
    (db : Db)
    → find_withdrawal id db.withdrawals ≡ some w
    → is_in_flight w.status ≡ true
    → Steps db (start_automatic_disbursement notifier provider id db).1
unfolding start_automatic_disbursement
start-Steps notifier provider id w db found flying =
    let w_id = find_withdrawal-id id db.withdrawals found in
    let found' : find_withdrawal w.id db.withdrawals ≡ some w =
      ap (λ n. find_withdrawal n db.withdrawals) w_id ∙ found in
    rw found (
      continue-Steps (finish_disbursement notifier id) db
        (rescue (return then_fail) (attempt notifier provider w db)) (finish-IsStepwise notifier id)
        (rescue-Steps db (attempt notifier provider w db)
          (attempt-Steps notifier provider w db found' flying)))
