-- ===== src/Ledger/Posting/Journal.antt =====
-- The idempotency keys of the journals: one constructor for each template of the services'
-- `idempotencyKey` texts, with the ids that are put into it.
use myturn_webportal.Prelude.{ℕ, ◌≡◌, ◌↔◌, Bool, true, arith, ◌&&◌, ◌==◌}

pub data IdempotencyKey : Type 0 where
  -- `allocation:payment-request:<id>:<day>:inflow`, `allocation:contribution:<id>:day:<day>:inflow`
  request_inflow contribution_inflow : ℕ → ℕ → IdempotencyKey
  cycle_finalize : ℕ → IdempotencyKey
  wallet_migration escrow_migration : ℕ → IdempotencyKey
  -- the reserve, then the payment or the contribution
  reserve_release default_cover : ℕ → ℕ → IdempotencyKey
  final_release orphan_sweep : ℕ → IdempotencyKey
  withdrawal_hold withdrawal_complete withdrawal_release : ℕ → IdempotencyKey
  deposit_hold deposit_forfeit deposit_release : ℕ → IdempotencyKey

abbrev template : IdempotencyKey → ℕ
template (request_inflow _ _) = 0
template (contribution_inflow _ _) = 1
template (cycle_finalize _) = 2
template (wallet_migration _) = 3
template (escrow_migration _) = 4
template (reserve_release _ _) = 5
template (default_cover _ _) = 6
template (final_release _) = 7
template (orphan_sweep _) = 8
template (withdrawal_hold _) = 9
template (withdrawal_complete _) = 10
template (withdrawal_release _) = 11
template (deposit_hold _) = 12
template (deposit_forfeit _) = 13
template (deposit_release _) = 14

abbrev subject : IdempotencyKey → ℕ
subject (request_inflow a _) = a
subject (contribution_inflow a _) = a
subject (cycle_finalize a) = a
subject (wallet_migration a) = a
subject (escrow_migration a) = a
subject (reserve_release a _) = a
subject (default_cover a _) = a
subject (final_release a) = a
subject (orphan_sweep a) = a
subject (withdrawal_hold a) = a
subject (withdrawal_complete a) = a
subject (withdrawal_release a) = a
subject (deposit_hold a) = a
subject (deposit_forfeit a) = a
subject (deposit_release a) = a

abbrev occasion : IdempotencyKey → ℕ
occasion (request_inflow _ b) = b
occasion (contribution_inflow _ b) = b
occasion (reserve_release _ b) = b
occasion (default_cover _ b) = b
occasion _ = 0

abbrev pub journal_beq : IdempotencyKey → IdempotencyKey → Bool
journal_beq a b =
    (template a == template b) && (subject a == subject b) && (occasion a == occasion b)

pub journal_beq_iff : (a b : IdempotencyKey) → (journal_beq a b ≡ true) ↔ (a ≡ b)
journal_beq_iff a b = ground arith
