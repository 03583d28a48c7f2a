-- ===== src/Shared/Queue/Walk.antt =====
-- The loop of selectPayoutRecipient as a walk round the sorted queue.
use mathlib.Core.List.{append-nil, append_assoc}
use mathlib.Core.Path.{◌∙◌}
use mathlib.Core.Option.{some-injective}
use native.Mathlib.Nat.{add-zero, mod-eq_of_lt}
use native.Mathlib.Decide.{dec_lt}
use myturn_webportal.Prelude.{
  ℕ, zero, suc, ◌+◌, ◌-◌, ◌%◌, ◌<◌, ◌≡◌, refl, sym, ap, inl, inr, true, false, Option, none, some,
  List, [], ◌∷◌, ◌++◌, arith, Bool-cases, length, get_elem?, All, ok,
}
use myturn_webportal.Shared.Queue.{PayoutQueueMember, PayoutRecipientSelection, is_defaulted, scan}

pub get_elem?-some :
    {A : Type 0} (xs : List A) (i : ℕ) → i < length xs → (a : A) × (get_elem? xs i ≡ some a)
get_elem?-some [] i h = absurd (omega arith)
get_elem?-some (x ∷ xs) zero h = (x, refl)
get_elem?-some (x ∷ xs) (suc i) h = get_elem?-some xs i (omega arith)

module _ (sorted : List PayoutQueueMember) (base : ℕ) (nominal : Option PayoutQueueMember) where
  abbrev pub place : ℕ → ℕ
  place i = (base + i) % length sorted

  -- The members stand at the places from step `i` on, in the order of the walk.
  abbrev pub Visited : ℕ → List PayoutQueueMember → Type 0
  Visited i [] = Unit
  Visited i (m ∷ ms) = (get_elem? sorted (place i) ≡ some m) × Visited (suc i) ms

  -- How the loop ends from step `i` with `left` members to go, having passed `more`.
  abbrev pub Ends : ℕ → ℕ → List PayoutQueueMember → Option PayoutQueueMember → Type 0
  Ends i left more none = length more ≡ left
  Ends i left more (some m) =
      (get_elem? sorted (place (i + length more)) ≡ some m)
      × (is_defaulted m.cycle_standing ≡ false)
      × (length more < left)

  pub record Scanned (i left : ℕ) (skipped : List PayoutQueueMember) (s : PayoutRecipientSelection)
      : Type 0 where
    pub more : List PayoutQueueMember
    pub all_skipped : s.skipped_defaulted ≡ skipped ++ more
    pub visited : Visited i more
    pub only_defaulted : All (λ m. is_defaulted m.cycle_standing ≡ true) more
    pub ends : Ends i left more s.recipient

  Ends-suc :
      (i left : ℕ) (m : PayoutQueueMember) (more : List PayoutQueueMember)
      (r : Option PayoutQueueMember)
      → Ends (suc i) left more r
      → Ends i (suc left) (m ∷ more) r
  Ends-suc i left m more none h = ap suc h
  Ends-suc i left m more (some x) (e, f, g) =
      let next : suc i + length more ≡ i + suc (length more) = omega arith in
      (rw (← next) e, f, omega arith)

  Scanned-skip :
      (i left : ℕ) (skipped : List PayoutQueueMember) (m : PayoutQueueMember)
      (s : PayoutRecipientSelection)
      → get_elem? sorted (place i) ≡ some m
      → is_defaulted m.cycle_standing ≡ true
      → Scanned (suc i) left (skipped ++ (m ∷ [])) s
      → Scanned i (suc left) skipped s
  Scanned-skip i left skipped m s e d c = record {
    more = m ∷ c.more;
    all_skipped = c.all_skipped ∙ append_assoc skipped (m ∷ []) c.more;
    visited = (e, c.visited);
    only_defaulted = (d, c.only_defaulted);
    ends = Ends-suc i left m c.more s.recipient c.ends;
  }

  pub scan-skip :
      (left i : ℕ) (skipped : List PayoutQueueMember) (m : PayoutQueueMember)
      → get_elem? sorted (place i) ≡ some m
      → is_defaulted m.cycle_standing ≡ true
      → scan sorted base nominal (suc left) i skipped
        ≡ scan sorted base nominal left (suc i) (skipped ++ (m ∷ []))
  unfolding scan
  scan-skip left i skipped m e d = rw (e, scan, d)

  pub scan-stop :
      (left i : ℕ) (skipped : List PayoutQueueMember) (m : PayoutQueueMember)
      → get_elem? sorted (place i) ≡ some m
      → is_defaulted m.cycle_standing ≡ false
      → scan sorted base nominal (suc left) i skipped
        ≡ ok (record {
          recipient = some m;
          skipped_defaulted = skipped;
          nominal_recipient = nominal;
        })
  unfolding scan
  scan-stop left i skipped m e d = rw (e, scan, d)

  -- The loop returns, with what it promises.
  pub scan-Scanned :
      (left i : ℕ) (skipped : List PayoutQueueMember)
      → 0 < length sorted
      → (s : PayoutRecipientSelection) × (scan sorted base nominal left i skipped ≡ ok s)
        × Scanned i left skipped s
  unfolding scan
  scan-Scanned zero i skipped h = (
    record { recipient = none; skipped_defaulted = skipped; nominal_recipient = nominal },
    refl,
    record {
      more = [];
      all_skipped = sym (append-nil skipped);
      visited = tt;
      only_defaulted = tt;
      ends = refl;
    },
  )
  scan-Scanned (suc left) i skipped h =
      let (m, e) = get_elem?-some sorted (place i) (omega arith) in
      elim (Bool-cases (is_defaulted m.cycle_standing)) [
        | inl d ↦
            let (s, r, c) = scan-Scanned left (suc i) (skipped ++ (m ∷ [])) h in
            (s, scan-skip left i skipped m e d ∙ r, Scanned-skip i left skipped m s e d c)
        | inr n ↦ (
          record { recipient = some m; skipped_defaulted = skipped; nominal_recipient = nominal },
          scan-stop left i skipped m e n,
          record {
            more = [];
            all_skipped = sym (append-nil skipped);
            visited = tt;
            only_defaulted = tt;
            ends = (rw add-zero e, n, omega arith);
          },
        )
      ]

  -- A member met on the walk is one of those that were passed.
  pub Visited-All :
      (i : ℕ) (more : List PayoutQueueMember) (t : ℕ) (m : PayoutQueueMember)
      → Visited i more
      → All (λ x. is_defaulted x.cycle_standing ≡ true) more
      → t < length more
      → get_elem? sorted (place (i + t)) ≡ some m
      → is_defaulted m.cycle_standing ≡ true
  Visited-All i [] t m v a lt e = absurd (omega arith)
  Visited-All i (x ∷ more) zero m (v, _) (d, _) lt e =
      let same : x ≡ m = some-injective _ _ (sym v ∙ rw add-zero at e) in rw (← same) d
  Visited-All i (x ∷ more) (suc t) m (_, v) (_, a) lt e =
      let next : i + suc t ≡ suc i + t = omega arith in
      Visited-All (suc i) more t m v a (omega arith) (rw next at e)

wraps : (n j : ℕ) → j < n → (j + n) % n ≡ j
wraps n j h = grind arith

-- Every place is met within one round.
pub place_reached : (n base j : ℕ) → base < n → j < n → (t : ℕ) × (t < n) × ((base + t) % n ≡ j)
place_reached n base j b h = elim (dec_lt j base) [
  | yes before ↦ (
    j + n - base,
    omega arith,
    let e : base + (j + n - base) ≡ j + n = omega arith in rw e (wraps n j h),
  )
  | no after ↦
      (j - base, omega arith, let e : base + (j - base) ≡ j = omega arith in rw e (mod-eq_of_lt h))
]

pub All-of_get {κ} :
    (P : PayoutQueueMember → Type κ) (xs : List PayoutQueueMember)
    → ((j : ℕ) (m : PayoutQueueMember) → j < length xs → get_elem? xs j ≡ some m → P m)
    → All P xs
All-of_get P [] h = tt
All-of_get P (x ∷ xs) h =
    (h 0 x (omega arith) refl, All-of_get P xs (λ j m lt e. h (suc j) m (omega arith) e))

pub get-All {κ} :
    (P : PayoutQueueMember → Type κ) (xs : List PayoutQueueMember) (j : ℕ) (m : PayoutQueueMember)
    → All P xs
    → get_elem? xs j ≡ some m
    → P m
get-All P [] j m a e = cc
get-All P (x ∷ xs) zero m (p, _) e = rw (← some-injective _ _ e) p
get-All P (x ∷ xs) (suc j) m (_, a) e = get-All P xs j m a e
