-- ===== src/Shared/ReserveRules.antt =====
-- packages/shared/src/contribution-reserve.ts, and missedContributionMinor of payout-recipient.ts:
-- how much of a payout is held back, and how it is set free. Positions, units and counts are whole
-- and not negative; the two rates come from the environment and may be any integer.
pub mod Rates
pub mod Releases
use myturn_webportal.Prelude.{
  ℕ, suc, ◌+◌, ◌-◌, ◌*◌, ◌/◌, min, max, Bool, ◌||◌, if◌then◌else◌, ltb, leb, ◌==◌, Result, ok, err,
  ◌>>=◌, negative_amount, no_positions, position_out_of_range, max_bps_out_of_range,
  no_payment_units,
}
use myturn_webportal.Prelude.Int.{ℤ, pos, negsuc, pos_part}
use myturn_webportal.Shared.Margin.{bps_denominator}

-- `Math.max(minBps, Math.min(maxBps, raw))`, where `raw` is at least zero.
linear_bps : ℕ → ℕ → ℕ → ℤ → ℕ
linear_bps position total max_bps min_bps =
    let raw = max_bps * (total - position) / total in max (pos_part min_bps) (min max_bps raw)

bps_for_rate : ℕ → ℕ → ℤ → ℤ → Result ℕ
unfolding linear_bps
bps_for_rate position total (negsuc _) min_bps = err max_bps_out_of_range
bps_for_rate position total (pos max_bps) min_bps =
    if ltb bps_denominator max_bps
    then err max_bps_out_of_range
    else ok (if leb total position then 0 else linear_bps position total max_bps min_bps)

unfoldable pub compute_reserve_bps : ℕ → ℕ → ℤ → ℤ → Result ℕ
unfolding bps_for_rate
compute_reserve_bps position total max_bps min_bps =
    if ltb total 1
    then err no_positions
    else (if ltb position 1 || ltb total position
        then err position_out_of_range
        else bps_for_rate position total max_bps min_bps)

unfoldable pub compute_reserve_amount_minor : ℤ → ℕ → Result ℕ
compute_reserve_amount_minor (negsuc _) bps = err negative_amount
compute_reserve_amount_minor (pos net) bps =
    ok (if leb bps 0 then 0 else net * bps / bps_denominator)

unfoldable pub compute_release_per_unit_minor : ℕ → ℕ → ℕ
compute_release_per_unit_minor original units = if ltb units 1 then 0 else original / units

unfoldable pub next_reserve_release_minor : ℕ → ℕ → ℕ → ℕ → ℕ
unfolding compute_release_per_unit_minor
next_reserve_release_minor original remaining units released =
    if leb remaining 0 || ltb units 1
    then 0
    else (if leb units (released + 1)
        then remaining
        else compute_release_per_unit_minor original units)

-- `Math.max(0, total - position)` is the truncated difference.
unfoldable pub post_payout_contribution_count : ℕ → ℕ → ℕ
post_payout_contribution_count position total = if ltb total 1 then 0 else total - position

unfoldable pub post_payout_contribution_units : ℕ → ℕ → ℕ → Result ℕ
unfolding post_payout_contribution_count
post_payout_contribution_units position total units_per_cycle =
    if ltb units_per_cycle 1
    then err no_payment_units
    else ok (post_payout_contribution_count position total * units_per_cycle)

unfoldable pub missed_contribution_minor : ℕ → ℕ → ℕ → ℕ
missed_contribution_minor amount expected paid =
    if ltb expected 1
    then amount
    else (if leb (expected - paid) 0 then 0 else amount * (expected - paid) / expected)
