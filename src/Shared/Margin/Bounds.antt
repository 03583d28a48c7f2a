-- ===== src/Shared/Margin/Bounds.antt =====
-- The tiers are ordered, and what the code proposes for a pool it also accepts.
use myturn_webportal.Prelude.{ℕ, ◌/◌, ◌≤◌, ◌<◌, ◌≡◌, ◌↔◌, refl, ok, arith, min}
use myturn_webportal.Prelude.Int.{pos}
use myturn_webportal.Shared.Margin.{
  get_max_allowed_margin_bps, resolve_default_service_margin_bps, clamp_service_margin_bps, whole,
  accepted, validate_service_margin_bps, tier_max_bps,
}

-- A larger pool never has a lower maximum, and every maximum lies from 5% to 20%.
pub get_max_allowed_margin_bps_mono :
    (g h : ℕ) {a b : ℕ}
    → g ≤ h
    → get_max_allowed_margin_bps (pos g) ≡ ok a
    → get_max_allowed_margin_bps (pos h) ≡ ok b
    → (500 ≤ a) × (a ≤ b) × (b ≤ 2000)
unfolding get_max_allowed_margin_bps
get_max_allowed_margin_bps_mono g h le e f = ground arith

-- The 5% tier ends where the whole GHS pass 1,000: it holds up to 1,000.99.
pub get_max_allowed_margin_bps-tiers :
    (g : ℕ)
    → ((get_max_allowed_margin_bps (pos g) ≡ ok 500) ↔ (g < 100100))
      × ((get_max_allowed_margin_bps (pos g) ≡ ok 1000) ↔ ((100100 ≤ g) × (g < 500100)))
      × ((get_max_allowed_margin_bps (pos g) ≡ ok 1500) ↔ ((500100 ≤ g) × (g < 2000100)))
      × ((get_max_allowed_margin_bps (pos g) ≡ ok 2000) ↔ (2000100 ≤ g))
unfolding get_max_allowed_margin_bps
get_max_allowed_margin_bps-tiers g = ground arith

-- Whatever margin is asked for, the clamped one is valid for the pool; and clamping leaves exactly
-- the valid ones alone.
clamp_service_margin_bps-accepted :
    (b g : ℕ) {c : ℕ}
    → clamp_service_margin_bps (pos b) (pos g) ≡ ok c
    → (validate_service_margin_bps (whole (pos c)) (pos g) ≡ ok (accepted c))
      × ((validate_service_margin_bps (whole (pos b)) (pos g) ≡ ok (accepted b)) ↔ (c ≡ b))
unfolding clamp_service_margin_bps validate_service_margin_bps
clamp_service_margin_bps-accepted b g e = ground arith

-- The proposed default, 10% or the tier's maximum, exists and is valid for every pool.
pub resolve_default_service_margin_bps-accepted :
    (g : ℕ)
    → (d : ℕ) × (resolve_default_service_margin_bps (pos g) ≡ ok d)
      × (validate_service_margin_bps (whole (pos d)) (pos g) ≡ ok (accepted d))
      × (d ≤ 1000)
unfolding resolve_default_service_margin_bps validate_service_margin_bps
resolve_default_service_margin_bps-accepted g =
    (min 1000 (tier_max_bps (g / 100)), refl, ground arith, omega arith)
