-- ===== src/Withdrawals/Limits.antt =====
-- withdrawal-limits.ts and parse-withdrawal-amount.ts. A limit that is not set is `none`.
use myturn_webportal.Prelude.{
  ℕ, ◌+◌, zero, suc, Bool, true, false, Option, none, some, List, ◌==◌, ltb, leb, ◌&&◌, Result, ok,
  err, ◌>>◌, throw_if, filter_by, length, invalid_amount, below_minimum, above_maximum,
  daily_count_reached, daily_amount_reached,
}
use myturn_webportal.Prelude.Int.{ℤ, pos, negsuc}
use myturn_webportal.Store.Rows.{WithdrawalRequest, WithdrawalStatus, WithdrawalActorRole}
use myturn_webportal.Store.Lemmas.{sum_by}

pub record WithdrawalLimitsConfig : Type 0 where
  pub min_amount : ℕ
  pub max_single_amount : Option ℕ
  pub max_daily_amount : Option ℕ
  pub max_daily_count : Option ℕ

-- The argument is what `new Decimal` makes of the text without its commas, in minor units: `none` if
-- it throws or is not finite. A text with more than two decimals is not in the model.
unfoldable pub parse_withdrawal_amount : Option ℤ → Result ℕ
parse_withdrawal_amount none = err invalid_amount
parse_withdrawal_amount (some (negsuc _)) = err invalid_amount
parse_withdrawal_amount (some (pos zero)) = err invalid_amount
parse_withdrawal_amount (some (pos (suc n))) = ok (suc n)

abbrev same_role : WithdrawalActorRole → WithdrawalActorRole → Bool
same_role WithdrawalActorRole.member WithdrawalActorRole.member = true
same_role WithdrawalActorRole.member WithdrawalActorRole.admin = false
same_role WithdrawalActorRole.admin WithdrawalActorRole.member = false
same_role WithdrawalActorRole.admin WithdrawalActorRole.admin = true

-- All statuses but FAILED.
abbrev counts_today : WithdrawalStatus → Bool
counts_today WithdrawalStatus.pending = true
counts_today WithdrawalStatus.processing = true
counts_today WithdrawalStatus.completed = true
counts_today WithdrawalStatus.failed = false

unfoldable pub requests_today :
    ℕ → WithdrawalActorRole → ℕ → List WithdrawalRequest → List WithdrawalRequest
requests_today actor role start_of_day = filter_by λ w.
    w.actor_id == actor
    && same_role w.actor_role role
    && leb start_of_day w.requested_at
    && counts_today w.status

abbrev exceeds : Option ℕ → ℕ → Bool
exceeds none n = false
exceeds (some limit) n = ltb limit n

-- `limit != null && n >= limit`
abbrev reaches : Option ℕ → ℕ → Bool
reaches none n = false
reaches (some limit) n = leb limit n

unfoldable pub assert_withdrawal_within_limits :
    WithdrawalLimitsConfig
    → ℕ
    → WithdrawalActorRole
    → ℕ
    → ℕ
    → List WithdrawalRequest
    → Result (Unit {0})
unfolding requests_today
assert_withdrawal_within_limits limits actor role amount start_of_day rows =
    let today = requests_today actor role start_of_day rows in
    throw_if (ltb amount limits.min_amount) below_minimum
    >> throw_if (exceeds limits.max_single_amount amount) above_maximum
    >> throw_if (reaches limits.max_daily_count (length today)) daily_count_reached
    >> throw_if (exceeds limits.max_daily_amount (sum_by (λ w. w.amount) today + amount))
        daily_amount_reached
