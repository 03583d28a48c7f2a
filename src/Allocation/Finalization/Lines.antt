-- ===== src/Allocation/Finalization/Lines.antt =====
-- The lines of an allocation.
use myturn_webportal.Prelude.{ℕ, ◌+◌, ◌≤◌, ◌≡◌, refl, ap, inl, inr, arith, ok, leb, Bool-cases}
use myturn_webportal.Prelude.Int.{ℤ, pos, neg, pos_part, neg_part, ◌+ℤ◌, int_laws}
use myturn_webportal.Shared.Cycle.{CycleSummary}
use myturn_webportal.Shared.Cycle.Conservation.{summarize_cycle-conserves}
use myturn_webportal.Ledger.Posting.{assert_balanced}
use myturn_webportal.Ledger.Posting.Effect.{assert_balanced-of_sum}
use myturn_webportal.Reserve.Split.{ReserveConfig, ReserveSplitResult}
use myturn_webportal.Reserve.Split.Parts.{compute_split-parts}
use myturn_webportal.Allocation.Finalization.{
  FinalizationParams, allocation_lines, summary_for, split_for,
}

balanced_sum :
    (gross net margin platform reserve : ℕ) (available : ℤ)
    → net + margin ≡ gross
    → platform ≡ margin
    → pos reserve +ℤ available ≡ pos net
    → (neg (pos gross) +ℤ (available +ℤ (pos platform +ℤ (pos reserve +ℤ pos 0))) ≡ pos 0)
balanced_sum gross net margin platform reserve available e p s =
    omega (int_laws, ap pos_part s, ap neg_part s)

balanced_sum_bare :
    (gross net margin platform : ℕ) (available : ℤ)
    → net + margin ≡ gross
    → platform ≡ margin
    → pos 0 +ℤ available ≡ pos net
    → (neg (pos gross) +ℤ (available +ℤ (pos platform +ℤ pos 0)) ≡ pos 0)
balanced_sum_bare gross net margin platform available e p s =
    omega (int_laws, ap pos_part s, ap neg_part s)

-- The allocation of a cycle that can be summed up and split always balances: the pool's gross amount
-- is the recipient's available and reserved parts and the margin, to the last minor unit.
allocation_lines-balanced :
    (config : ReserveConfig) (params : FinalizationParams) {summary : CycleSummary}
    {split : ReserveSplitResult}
    → pos_part config.min_bps ≤ 10000
    → summary_for params ≡ ok summary
    → split_for config params summary ≡ ok split
    → assert_balanced (allocation_lines params summary split) ≡ ok tt
unfolding summary_for split_for allocation_lines
allocation_lines-balanced config params {summary} {split} low h s =
    let (net, platform, _) =
      summarize_cycle-conserves params.cycle_number (pos params.contribution_per_day)
        (pos params.member_count) (pos params.service_margin_bps) (pos params.days_per_cycle) h in
    let (parts, _) =
      compute_split-parts config summary.net_after_margin_minor params.payout_position
        params.total_positions params.days_per_cycle low s in
    let zero_sum =
      balanced_sum summary.gross_pool_amount_minor summary.net_after_margin_minor
        summary.service_margin_minor summary.platform_share_minor split.reserve_minor
        split.available_minor net platform parts in
    elim (Bool-cases (leb split.reserve_minor 0)) [
      | inl no_reserve ↦
          let zero_reserve : split.reserve_minor ≡ 0 = ground arith in
          rw no_reserve (
            assert_balanced-of_sum _ refl (
              balanced_sum_bare summary.gross_pool_amount_minor summary.net_after_margin_minor
                summary.service_margin_minor summary.platform_share_minor split.available_minor net
                platform (rw zero_reserve at parts)))
      | inr some_reserve ↦ rw some_reserve (assert_balanced-of_sum _ refl zero_sum)
    ]
