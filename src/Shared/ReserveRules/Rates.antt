-- ===== src/Shared/ReserveRules/Rates.antt =====
-- The rate of the reserve over the payout positions, and the amounts that follow from it.
use myturn_webportal.Prelude.{ℕ, ◌+◌, ◌-◌, ◌*◌, ◌/◌, ◌≤◌, ◌<◌, ◌≡◌, ◌⊎◌, ap, ok, arith}
use myturn_webportal.Prelude.Int.{ℤ, pos, negsuc}
use myturn_webportal.Shared.ReserveRules.{
  compute_reserve_bps, compute_reserve_amount_minor, missed_contribution_minor,
}

-- With rates in order, every position but the last has a rate between the two, and the last none.
pub compute_reserve_bps-bounds :
    (position total high low : ℕ) {r : ℕ}
    → low ≤ high
    → compute_reserve_bps position total (pos high) (pos low) ≡ ok r
    → (r ≤ high) × (r ≤ 10000) × (((position < total) × (low ≤ r)) ⊎ ((position ≡ total) × (r ≡ 0)))
unfolding compute_reserve_bps
compute_reserve_bps-bounds position total high low le e = ground arith

share_mono : (m a b t : ℕ) → a ≤ b → m * a / t ≤ m * b / t
share_mono m a b t h = grind arith

-- A later payout position never has a higher rate: the reserve falls along the queue.
compute_reserve_bps-antitone :
    (p q total : ℕ) (high low : ℤ) {r s : ℕ}
    → p ≤ q
    → compute_reserve_bps p total high low ≡ ok r
    → compute_reserve_bps q total high low ≡ ok s
    → s ≤ r
unfolding compute_reserve_bps
compute_reserve_bps-antitone p q total (negsuc _) low h e f = ground arith
compute_reserve_bps-antitone p q total (pos high) low h e f =
    ground (arith, share_mono high (total - q) (total - p) total)

share-le : (g b : ℕ) → b ≤ 10000 → g * b / 10000 ≤ g
share-le g b h = grind arith

-- What is held back is the exact share rounded down, and never more than the payout, as long as the
-- rate is at most 100%.
pub compute_reserve_amount_minor-le :
    (net bps : ℕ) {r : ℕ}
    → bps ≤ 10000
    → compute_reserve_amount_minor (pos net) bps ≡ ok r
    → (r ≤ net) × (r * 10000 ≤ net * bps) × (net * bps < (r + 1) * 10000)
unfolding compute_reserve_amount_minor
compute_reserve_amount_minor-le net bps h e = ground (arith, share-le net bps)

share-all : (m t : ℕ) → 1 ≤ t → m * t / t ≡ m
share-all m t h = grind arith

sub-zero : (n : ℕ) → n - 0 ≡ n
sub-zero n = omega arith

-- What a member still owes falls with each day paid, is the whole amount before the first and
-- nothing after the last.
pub missed_contribution_minor-antitone :
    (amount expected p q : ℕ)
    → 1 ≤ expected
    → p ≤ q
    → (missed_contribution_minor amount expected q ≤ missed_contribution_minor amount expected p)
      × (missed_contribution_minor amount expected 0 ≡ amount)
      × (missed_contribution_minor amount expected expected ≡ 0)
unfolding missed_contribution_minor
missed_contribution_minor-antitone amount expected p q one h = ground (
  arith,
  share_mono amount (expected - q) (expected - p) expected,
  share-all amount expected,
  ap (λ (x : ℕ). amount * x / expected) (sub-zero expected),
)
