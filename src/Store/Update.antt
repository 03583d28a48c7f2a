-- ===== src/Store/Update.antt =====
-- Changes of rows that leave alone what is measured of them.
use myturn_webportal.Prelude.{
  ℕ, ◌≡◌, refl, sym, ap, ◌∙◌, inl, inr, Bool, some, List, [], ◌∷◌, arith, Bool-cases, ◌==◌, All,
  find_first,
}
use mathlib.Core.Option.{some-injective}
use myturn_webportal.Store.Lemmas.{sum_by}
use myturn_webportal.Store.{update_rows}

module _ {ℓ} {A : Type ℓ} (q : A → Bool) (f : A → A) where
  pub sum_by-update_same :
      (w : A → ℕ) (xs : List A)
      → ((x : A) → w (f x) ≡ w x)
      → sum_by w (update_rows q f xs) ≡ sum_by w xs
  unfolding update_rows
  sum_by-update_same w [] same = refl
  sum_by-update_same w (x ∷ xs) same = elim (Bool-cases (q x)) [
    | inl hit ↦ rw hit (omega (arith, same x, sum_by-update_same w xs same))
    | inr miss ↦ rw miss (omega (arith, sum_by-update_same w xs same))
  ]

  pub All-update_same {κ} :
      (P : A → Type κ) (xs : List A)
      → ((x : A) → P x → P (f x))
      → All P xs
      → All P (update_rows q f xs)
  unfolding update_rows
  All-update_same P [] keep all = tt
  All-update_same P (x ∷ xs) keep (px, all) = elim (Bool-cases (q x)) [
    | inl hit ↦ rw hit (keep x px, All-update_same P xs keep all)
    | inr miss ↦ rw miss (px, All-update_same P xs keep all)
  ]

  -- A row found by its id afterwards was there before, with the same owner.
  pub find_first-update_owner :
      (id owner : A → ℕ) (n : ℕ) (xs : List A) (r : A)
      → ((x : A) → id (f x) ≡ id x)
      → ((x : A) → owner (f x) ≡ owner x)
      → find_first (λ x. id x == n) (update_rows q f xs) ≡ some r
      → (r₀ : A) × (find_first (λ x. id x == n) xs ≡ some r₀) × (owner r₀ ≡ owner r)
  unfolding update_rows
  find_first-update_owner id owner n [] r same_id same_owner found = cc found
  find_first-update_owner id owner n (x ∷ xs) r same_id same_owner found = elim (Bool-cases (q x)) [
    | inl hit ↦
        let found₁ = rw (hit, same_id x) at found in
        elim (Bool-cases (id x == n)) [
          | inl here ↦
              (x, rw here, sym (same_owner x) ∙ ap owner (some-injective _ _ (rw here at found₁)))
          | inr later ↦
              rw later
                (find_first-update_owner id owner n xs r same_id same_owner (rw later at found₁))
        ]
    | inr miss ↦
        let found₁ = rw miss at found in
        elim (Bool-cases (id x == n)) [
          | inl here ↦ (x, rw here, ap owner (some-injective _ _ (rw here at found₁)))
          | inr later ↦
              rw later
                (find_first-update_owner id owner n xs r same_id same_owner (rw later at found₁))
        ]
  ]
