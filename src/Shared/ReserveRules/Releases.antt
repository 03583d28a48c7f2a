-- ===== src/Shared/ReserveRules/Releases.antt =====
-- The releases of a reserve, one for each contribution unit paid after the payout.
use myturn_webportal.Prelude.{
  ℕ, zero, suc, ◌+◌, ◌-◌, ◌*◌, ◌/◌, ◌≤◌, ◌<◌, ◌≡◌, ap, ◌∙◌, List, [], ◌∷◌, arith, sum,
}
use myturn_webportal.Shared.ReserveRules.{next_reserve_release_minor}

-- The amounts of `n` releases in a row, each from what the last one left.
unfoldable pub releases : ℕ → ℕ → ℕ → ℕ → ℕ → List ℕ
releases original units zero remaining released = []
releases original units (suc n) remaining released =
    let r = next_reserve_release_minor original remaining units released in
    r ∷ releases original units n (remaining - r) (released + 1)

next_release-before_last :
    (original remaining units released : ℕ)
    → released + 1 < units
    → original / units ≤ remaining
    → next_reserve_release_minor original remaining units released ≡ original / units
unfolding next_reserve_release_minor
next_release-before_last original remaining units released more enough = ground arith

releases-sum :
    (original units n remaining released : ℕ)
    → released + suc n ≡ units
    → n * (original / units) ≤ remaining
    → sum (releases original units (suc n) remaining released) ≡ remaining
unfolding releases next_reserve_release_minor
releases-sum original units zero remaining released e h = ground arith
releases-sum original units (suc n) remaining released e h =
    let r = next_reserve_release_minor original remaining units released in
    let per_unit : r ≡ original / units =
      next_release-before_last original remaining units released (omega arith) (omega arith) in
    ap (λ t. r + t)
      (releases-sum original units n (remaining - r) (released + 1) (omega arith) (omega arith))
    ∙ omega arith

share-below : (m n : ℕ) → n * (m / suc n) ≤ m
share-below m n = grind arith

-- Releases in a row, each from what the last one left, release the whole original amount, to the
-- last minor unit, in as many releases as there are units.
pub releases_complete :
    (original units : ℕ) → 1 ≤ units → sum (releases original units units original 0) ≡ original
releases_complete original zero h = absurd (omega arith)
releases_complete original (suc n) h =
    releases-sum original (suc n) n original 0 (omega arith) (share-below original n)

-- A release before the last does not look at what remains: when a default has used up the reserve
-- to less than one unit's share, the next release is of more than is left.
pub next_reserve_release_minor-exceeds :
    (original remaining units released : ℕ)
    → 1 ≤ remaining
    → remaining < original / units
    → released + 1 < units
    → remaining < next_reserve_release_minor original remaining units released
unfolding next_reserve_release_minor
next_reserve_release_minor-exceeds original remaining units released some_left short more =
    ground arith
