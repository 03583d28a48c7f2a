-- ===== src/Store/Filter.antt =====
-- Selecting rows by a test: `findMany` with a `where`.
use myturn_webportal.Prelude.{
  ℕ, ◌≡◌, inl, inr, Bool, true, false, some, List, [], ◌∷◌, arith, Bool-cases, ◌==◌, All,
  find_first, filter_by,
}
use myturn_webportal.Store.Lemmas.{IsAbsent, HasUniqueIds}

module _ {ℓ} {A : Type ℓ} where
  -- What is selected passes the test, and has what all rows have.
  pub All-filter_by {κ} :
      (P : A → Type κ) (p : A → Bool) (xs : List A)
      → All P xs
      → All (λ x. P x × (p x ≡ true)) (filter_by p xs)
  All-filter_by P p [] all = tt
  All-filter_by P p (x ∷ xs) (px, all) = elim (Bool-cases (p x)) [
    | inl hit ↦ rw hit ((px, hit), All-filter_by P p xs all)
    | inr miss ↦ rw miss (All-filter_by P p xs all)
  ]

  module _ (id : A → ℕ) where
    IsAbsent-filter_by :
        (n : ℕ) (p : A → Bool) (xs : List A) → IsAbsent id n xs → IsAbsent id n (filter_by p xs)
    IsAbsent-filter_by n p [] h = tt
    IsAbsent-filter_by n p (x ∷ xs) (ne, h) = elim (Bool-cases (p x)) [
      | inl hit ↦ rw hit (ne, IsAbsent-filter_by n p xs h)
      | inr miss ↦ rw miss (IsAbsent-filter_by n p xs h)
    ]

    pub HasUniqueIds-filter_by :
        (p : A → Bool) (xs : List A) → HasUniqueIds id xs → HasUniqueIds id (filter_by p xs)
    HasUniqueIds-filter_by p [] h = tt
    HasUniqueIds-filter_by p (x ∷ xs) (absent, h) = elim (Bool-cases (p x)) [
      | inl hit ↦ rw hit (IsAbsent-filter_by (id x) p xs absent, HasUniqueIds-filter_by p xs h)
      | inr miss ↦ rw miss (HasUniqueIds-filter_by p xs h)
    ]

    found_behind :
        (y : A) (xs ys : List A)
        → IsAbsent id (id y) ys
        → All (λ x. find_first (λ z. id z == id x) xs ≡ some x) ys
        → All (λ x. find_first (λ z. id z == id x) (y ∷ xs) ≡ some x) ys
    found_behind y xs [] h all = tt
    found_behind y xs (x ∷ ys) (ne, h) (found, all) =
        let differ : (id y == id x) ≡ false = ground arith in
        (rw differ found, found_behind y xs ys h all)

    -- Every row is found by its id.
    pub found_by_id :
        (xs : List A)
        → HasUniqueIds id xs
        → All (λ x. find_first (λ z. id z == id x) xs ≡ some x) xs
    found_by_id [] h = tt
    found_by_id (x ∷ xs) (absent, h) =
        let same : (id x == id x) ≡ true = ground arith in
        (rw same, found_behind x xs xs absent (found_by_id xs h))
