-- ===== src/Shared/Cycle.antt =====
-- packages/shared/src/calculations.ts: the money of one cycle, in minor units. Counts and days are
-- whole numbers (columns of type Int). Amounts that the code has checked to be at least zero are
-- naturals from there on.
pub mod Conservation
use myturn_webportal.Prelude.{
  ℕ, zero, suc, ◌+◌, ◌-◌, ◌*◌, ◌/◌, Bool, if◌then◌else◌, ltb, Result, ok, err, ◌>>=◌,
  negative_amount, invalid_member_count, invalid_days_per_cycle, margin_bps_out_of_range,
}
use myturn_webportal.Prelude.Int.{ℤ, pos, negsuc}
use myturn_webportal.Shared.Margin.{bps_denominator}

-- `MYTURN_REVENUE_PERCENTAGE * 100`
abbrev pub platform_margin_share_bps : ℕ
platform_margin_share_bps = 10000

gross_of : ℤ → ℕ → ℕ → Result ℕ
gross_of (negsuc _) members days = err negative_amount
gross_of (pos contribution) members days = ok (contribution * members * days)

gross_checked : ℤ → ℕ → ℤ → Result ℕ
unfolding gross_of
gross_checked contribution members (negsuc _) = err invalid_days_per_cycle
gross_checked contribution members (pos zero) = err invalid_days_per_cycle
gross_checked contribution members (pos (suc d)) = gross_of contribution members (suc d)

unfoldable pub gross_pool_amount_minor : ℤ → ℤ → ℤ → Result ℕ
unfolding gross_checked
gross_pool_amount_minor contribution (negsuc _) days = err invalid_member_count
gross_pool_amount_minor contribution (pos members) days = gross_checked contribution members days

unfoldable pub margin_from_gross_minor : ℕ → ℤ → Result ℕ
margin_from_gross_minor gross (negsuc _) = err margin_bps_out_of_range
margin_from_gross_minor gross (pos bps) =
    if ltb bps_denominator bps
    then err margin_bps_out_of_range
    else ok (gross * bps / bps_denominator)

pub record MarginSplit : Type 0 where
  pub admin_share_minor : ℕ
  pub platform_share_minor : ℕ

unfoldable pub split_margin_minor : ℕ → MarginSplit
split_margin_minor margin = record {
  admin_share_minor = 0;
  platform_share_minor = margin * platform_margin_share_bps / bps_denominator;
}

pub record CycleSummary : Type 0 where
  pub cycle_number : ℕ
  pub gross_pool_amount_minor : ℕ
  pub service_margin_minor : ℕ
  pub net_after_margin_minor : ℕ
  pub admin_share_minor : ℕ
  pub platform_share_minor : ℕ

-- The margin is at most the gross (`summarize_cycle-conserves`), so the subtraction is exact.
abbrev summary_of : ℕ → ℕ → ℕ → CycleSummary
summary_of cycle gross margin = record {
  cycle_number = cycle;
  gross_pool_amount_minor = gross;
  service_margin_minor = margin;
  net_after_margin_minor = gross - margin;
  admin_share_minor = (split_margin_minor margin).admin_share_minor;
  platform_share_minor = (split_margin_minor margin).platform_share_minor;
}

unfoldable pub summarize_cycle : ℕ → ℤ → ℤ → ℤ → ℤ → Result CycleSummary
unfolding gross_pool_amount_minor margin_from_gross_minor split_margin_minor
summarize_cycle cycle contribution members margin_bps days =
    gross_pool_amount_minor contribution members days >>= λ gross.
    margin_from_gross_minor gross margin_bps >>= λ margin. ok (summary_of cycle gross margin)
