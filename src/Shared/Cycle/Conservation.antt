-- ===== src/Shared/Cycle/Conservation.antt =====
-- Nothing is lost or made when a cycle's pool is split.
use myturn_webportal.Prelude.{
  ℕ, zero, suc, ◌+◌, ◌*◌, ◌/◌, ◌≤◌, ◌<◌, ◌≡◌, refl, ok, arith, >>=-eq-ok,
}
use myturn_webportal.Prelude.Int.{ℤ, pos, negsuc}
use myturn_webportal.Shared.Cycle.{
  gross_pool_amount_minor, margin_from_gross_minor, CycleSummary, summary_of, summarize_cycle,
}

share-le : (g b : ℕ) → b ≤ 10000 → g * b / 10000 ≤ g
share-le g b h = grind arith

-- The margin is the exact share of the gross, rounded down to a whole minor unit, and at most it.
pub margin_from_gross_minor-floor :
    (gross : ℕ) (bps : ℤ) {m : ℕ}
    → margin_from_gross_minor gross bps ≡ ok m
    → (b : ℕ) × (bps ≡ pos b)
      × (m * 10000 ≤ gross * b)
      × (gross * b < (m + 1) * 10000)
      × (m ≤ gross)
unfolding margin_from_gross_minor
margin_from_gross_minor-floor gross (negsuc _) e = cc
margin_from_gross_minor-floor gross (pos b) e =
    (b, refl, ground arith, ground arith, ground (arith, share-le gross b))

-- Every summary that is made splits its gross pool exactly: the net and the margin add up to it, the
-- platform has the whole margin and the admin nothing.
pub summarize_cycle-conserves :
    (cycle : ℕ) (contribution members margin_bps days : ℤ) {s : CycleSummary}
    → summarize_cycle cycle contribution members margin_bps days ≡ ok s
    → (s.net_after_margin_minor + s.service_margin_minor ≡ s.gross_pool_amount_minor)
      × (s.platform_share_minor ≡ s.service_margin_minor)
      × (s.admin_share_minor ≡ 0)
unfolding summarize_cycle
summarize_cycle-conserves cycle contribution members margin_bps days e =
    let (gross, _, e₁) = >>=-eq-ok (gross_pool_amount_minor contribution members days) _ e in
    let (margin, m, e₂) = >>=-eq-ok (margin_from_gross_minor gross margin_bps) _ e₁ in
    let (_, _, _, _, le) = margin_from_gross_minor-floor gross margin_bps m in ground arith

-- With at least one day and a margin of at most 100%, no cycle of a group fails to be summed up.
pub summarize_cycle-total :
    (cycle contribution members bps days : ℕ)
    → bps ≤ 10000
    → 1 ≤ days
    → (s : CycleSummary) × (summarize_cycle cycle
          (pos contribution)
          (pos members)
          (pos bps)
          (pos days)
        ≡ ok s)
      × (s.gross_pool_amount_minor ≡ contribution * members * days)
unfolding summarize_cycle
summarize_cycle-total cycle contribution members bps zero h k = absurd (omega arith)
summarize_cycle-total cycle contribution members bps (suc d) h k =
    let gross = contribution * members * suc d in
    (summary_of cycle gross (gross * bps / 10000), ground arith, refl)
