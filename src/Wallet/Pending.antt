-- ===== src/Wallet/Pending.antt =====
-- What a hold of an amount does to the amount that the summary offers for withdrawal.
use myturn_webportal.Prelude.{ℕ, ◌+◌, ◌-◌, ◌≡◌, refl, ◌⊎◌, inl, inr, true, arith, ok, ◌==◌}
use myturn_webportal.Prelude.Int.{
  ℤ, pos, negsuc, neg_part, ◌+ℤ◌, ◌-ℤ◌, neg, clamp_ℤ, int_laws, pos_part,
}
use myturn_webportal.Ledger.Account.{member_wallet_available}
use myturn_webportal.Store.Rows.{WithdrawalRequest}
use myturn_webportal.Store.{Db}
use myturn_webportal.Wallet.{withdrawable, pending_sum}
use myturn_webportal.Withdrawals.Held.{IsHeld}
use myturn_webportal.Withdrawals.Hold.{HoldParams, new_withdrawal, hold_in_tx}
use myturn_webportal.Withdrawals.Hold.Start.{hold-ok, hold_in_tx-moves}

one_sided : (a : ℤ) → (pos_part a ≡ 0) ⊎ (neg_part a ≡ 0)
one_sided (pos n) = inr refl
one_sided (negsuc n) = inl refl

falls_twice :
    (before after : ℤ) (pending amount : ℕ)
    → after ≡ before +ℤ (neg (pos amount) +ℤ (pos 0 +ℤ pos 0))
    → clamp_ℤ (after -ℤ pos (amount + pending))
      ≡ clamp_ℤ (before -ℤ pos pending) - (amount + amount)
falls_twice before after pending amount e = rw e (
    omega (
      int_laws,
      one_sided (before +ℤ (neg (pos amount) +ℤ (pos 0 +ℤ pos 0)) -ℤ pos (amount + pending)),
      one_sided (before -ℤ pos pending),
    ))

-- While the clearing account is exact, a member's hold lowers the amount that the summary offers for
-- withdrawal by twice the held amount (stopping at 0): the amount leaves the available wallet and is
-- subtracted again as pending.
pub hold-lowers_twice :
    (params : HoldParams) (amount now : ℕ) (db db' : Db) (res : WithdrawalRequest)
    → IsHeld db
    → hold_in_tx params (member_wallet_available params.actor_id) amount now db ≡ ok (res, db')
    → withdrawable params.actor_id db' ≡ withdrawable params.actor_id db - (amount + amount)
unfolding withdrawable pending_sum new_withdrawal
hold-lowers_twice params amount now db db' res held h =
    let source = member_wallet_available params.actor_id in
    let taken = hold-ok params source amount now db db' res h in
    let mine : (params.actor_id == params.actor_id) ≡ true = ground arith in
    let moves = rw mine at (hold_in_tx-moves params source amount now db db' res h held source) in
    rw (taken.rows, mine) (falls_twice _ _ _ amount moves)
