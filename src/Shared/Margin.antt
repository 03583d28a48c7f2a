-- ===== src/Shared/Margin.antt =====
-- packages/shared/src/margin-tiers.ts: which service margins a pool of a given size allows.
-- Amounts are in minor units, 100 to one GHS.
pub mod Bounds
use myturn_webportal.Prelude.{
  ℕ, suc, ◌+◌, ◌*◌, ◌/◌, min, max, Bool, true, false, Option, none, some, if◌then◌else◌, ltb, leb,
  Result, ok, err, ◌>>=◌, negative_amount,
}
use myturn_webportal.Prelude.Int.{ℤ, pos, negsuc, ltb_ℤ, pos_part}

abbrev pub bps_denominator : ℕ
bps_denominator = 10000

abbrev pub min_service_margin_bps : ℕ
min_service_margin_bps = 200

abbrev pub recommended_service_margin_bps : ℕ
recommended_service_margin_bps = 1000

abbrev pub ghs_minor_per_unit : ℕ
ghs_minor_per_unit = 100

-- The tiers, by whole GHS: `TIER_MAX_GHS` and `TIER_MAX_BPS`.
tier_max_bps : ℕ → ℕ
tier_max_bps ghs_whole =
    if leb ghs_whole 1000
    then 500
    else (if leb ghs_whole 5000 then 1000 else (if leb ghs_whole 20000 then 1500 else 2000))

unfoldable pub get_max_allowed_margin_bps : ℤ → Result ℕ
unfolding tier_max_bps
get_max_allowed_margin_bps (negsuc _) = err negative_amount
get_max_allowed_margin_bps (pos gross) = ok (tier_max_bps (gross / ghs_minor_per_unit))

pub record MarginBounds : Type 0 where
  pub gross_pool_amount_minor : ℤ
  pub min_allowed_margin_bps : ℕ
  pub max_allowed_margin_bps : ℕ
  pub recommended_margin_bps : ℕ

abbrev bounds_of : ℤ → ℕ → MarginBounds
bounds_of gross max_allowed = record {
  gross_pool_amount_minor = gross;
  min_allowed_margin_bps = min_service_margin_bps;
  max_allowed_margin_bps = max_allowed;
  recommended_margin_bps = min recommended_service_margin_bps max_allowed;
}

unfoldable pub get_margin_bounds : ℤ → Result MarginBounds
unfolding get_max_allowed_margin_bps
get_margin_bounds gross =
    get_max_allowed_margin_bps gross >>= λ max_allowed. ok (bounds_of gross max_allowed)

unfoldable pub resolve_default_service_margin_bps : ℤ → Result ℕ
unfolding get_margin_bounds
resolve_default_service_margin_bps gross =
    get_margin_bounds gross >>= λ bounds. ok bounds.recommended_margin_bps

-- For whole `bps`, which `Math.round` leaves alone. A negative one is below the minimum, as 0 is.
abbrev clamp_between : ℕ → ℕ → ℤ → ℕ
clamp_between low high bps = min high (max low (pos_part bps))

unfoldable pub clamp_service_margin_bps : ℤ → ℤ → Result ℕ
unfolding get_margin_bounds
clamp_service_margin_bps bps gross = get_margin_bounds gross >>= λ bounds.
    ok (clamp_between bounds.min_allowed_margin_bps bounds.max_allowed_margin_bps bps)

-- A JavaScript number: a whole one, or one that is fractional, infinite or not a number.
pub data Numeric : Type 0 where
  whole : ℤ → Numeric
  not_whole : Numeric

pub data ValidateServiceMarginResult : Type 0 where
  accepted : ℕ → ValidateServiceMarginResult
  rejected_not_whole rejected_below_minimum : ValidateServiceMarginResult
  rejected_above_maximum rejected_above_hundred : ValidateServiceMarginResult

abbrev validate_against : ℕ → ℕ → ValidateServiceMarginResult
validate_against bps max_allowed =
    if ltb max_allowed bps
    then rejected_above_maximum
    else (if ltb bps_denominator bps then rejected_above_hundred else accepted bps)

-- The lower bound is tested before the tier is looked up, which throws on a negative pool.
validate_whole : ℤ → ℤ → Result ValidateServiceMarginResult
unfolding get_max_allowed_margin_bps
validate_whole bps gross =
    if ltb_ℤ bps (pos min_service_margin_bps)
    then ok rejected_below_minimum
    else (get_max_allowed_margin_bps gross >>= λ max_allowed.
        ok (validate_against (pos_part bps) max_allowed))

unfoldable pub validate_service_margin_bps : Numeric → ℤ → Result ValidateServiceMarginResult
unfolding validate_whole
validate_service_margin_bps not_whole gross = ok rejected_not_whole
validate_service_margin_bps (whole bps) gross = validate_whole bps gross
