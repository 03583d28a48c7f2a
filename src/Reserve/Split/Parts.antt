-- ===== src/Reserve/Split/Parts.antt =====
-- The two parts of a payout.
use myturn_webportal.Prelude.{ℕ, ◌≤◌, ◌≡◌, inl, inr, arith, Bool-cases, ok, >>=-eq-ok}
use myturn_webportal.Prelude.Int.{ℤ, pos, pos_part, ◌+ℤ◌, ◌-ℤ◌, ◌≤ℤ◌, int_laws}
use myturn_webportal.Shared.ReserveRules.{
  compute_reserve_bps, compute_reserve_amount_minor, post_payout_contribution_units,
}
use myturn_webportal.Shared.ReserveRules.Rates.{compute_reserve_amount_minor-le}
use myturn_webportal.Reserve.Split.{ReserveConfig, ReserveSplitResult, split_enabled, compute_split}

record Enabled (config : ReserveConfig) (net position total : ℕ) (s : ReserveSplitResult)
    : Type 0 where
  bps : ℕ
  rate : compute_reserve_bps position total config.max_bps config.min_bps ≡ ok bps
  reserve : compute_reserve_amount_minor (pos net) bps ≡ ok s.reserve_minor
  rest : s.available_minor ≡ pos net -ℤ pos s.reserve_minor

split_enabled-ok :
    (config : ReserveConfig) (net position total units : ℕ) {s : ReserveSplitResult}
    → split_enabled config net position total units ≡ ok s
    → Enabled config net position total s
unfolding split_enabled
split_enabled-ok config net position total units {s} h =
    let (bps, rate, h₁) =
      >>=-eq-ok (compute_reserve_bps position total config.max_bps config.min_bps) _ h in
    let (reserve, amount, h₂) = >>=-eq-ok (compute_reserve_amount_minor (pos net) bps) _ h₁ in
    record { bps = bps; rate = rate; reserve = ground arith; rest = ground arith }

rate_le :
    (position total : ℕ) (high low : ℤ) {r : ℕ}
    → pos_part low ≤ 10000
    → compute_reserve_bps position total high low ≡ ok r
    → r ≤ 10000
unfolding compute_reserve_bps
rate_le position total high low h e = ground arith

enabled_parts :
    (net reserve : ℕ) (available : ℤ)
    → reserve ≤ net
    → available ≡ pos net -ℤ pos reserve
    → (pos reserve +ℤ available ≡ pos net) × (pos 0 ≤ℤ available)
enabled_parts net reserve available le e = rw e (omega int_laws, omega int_laws)

disabled_parts :
    (net reserve : ℕ) (available : ℤ)
    → reserve ≡ 0
    → available ≡ pos net
    → (pos reserve +ℤ available ≡ pos net) × (pos 0 ≤ℤ available)
disabled_parts net reserve available none_held e =
    rw (none_held, e) (omega int_laws, omega int_laws)

-- With a lower rate of at most 100%, the reserve and what is available at once make up the net
-- payout, and neither is negative, whether the reserve is enabled or not.
pub compute_split-parts :
    (config : ReserveConfig) (net position total units_per_cycle : ℕ) {s : ReserveSplitResult}
    → pos_part config.min_bps ≤ 10000
    → compute_split config net position total units_per_cycle ≡ ok s
    → (pos s.reserve_minor +ℤ s.available_minor ≡ pos net) × (pos 0 ≤ℤ s.available_minor)
unfolding compute_split
compute_split-parts config net position total units_per_cycle {s} low h =
    let (units, _, h₁) =
      >>=-eq-ok (post_payout_contribution_units position total units_per_cycle) _ h in
    elim (Bool-cases config.enabled) [
      | inl on ↦
          let e = split_enabled-ok config net position total units (rw on at h₁) in
          let (le, _, _) =
            compute_reserve_amount_minor-le net e.bps
              (rate_le position total config.max_bps config.min_bps low e.rate) e.reserve in
          enabled_parts net s.reserve_minor s.available_minor le e.rest
      | inr off ↦
          let h₂ = rw off at h₁ in
          disabled_parts net s.reserve_minor s.available_minor (ground arith) (ground arith)
    ]
