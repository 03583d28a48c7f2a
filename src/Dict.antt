-- ===== src/Dict.antt =====
-- A table with a unique key, as an association list over any key with an exact test: the rows of
-- a database table under the column that its schema marks `@unique`.
use myturn_webportal.Prelude.{
  ◌≡◌, refl, Option, none, some, List, [], ◌∷◌, arith, Eq, Bool-cases, inl, inr, if◌then◌else◌,
}
use mathlib.Core.Option.{some-injective}
use myturn_webportal.Prelude.Int.{ℤ, pos, ◌+ℤ◌, ◌-ℤ◌, int_laws}

abbrev pub Dict {ℓ} : Type 0 → Type ℓ → Type ℓ
Dict K V = List (K × V)

module _ {ℓ} {K : Type 0} {V : Type ℓ} ⦃e : Eq K⦄ where
  unfoldable pub lookup : K → Dict K V → Option V
  lookup k [] = none
  lookup k ((j, v) ∷ d) = if e.beq j k then some v else lookup k d

  unfoldable pub insert : K → V → Dict K V → Dict K V
  insert k v [] = (k, v) ∷ []
  insert k v ((j, w) ∷ d) = if e.beq j k then (j, v) ∷ d else (j, w) ∷ insert k v d

  pub lookup-insert :
      (k j : K) (v : V) (d : Dict K V)
      → lookup j (insert k v d) ≡ (if e.beq k j then some v else lookup j d)
  unfolding lookup insert
  lookup-insert k j v [] = refl
  lookup-insert k j v ((i, w) ∷ d) =
      ground (arith, e.beq_iff k j, e.beq_iff i k, e.beq_iff i j, lookup-insert k j v d)

module _ {K : Type 0} ⦃e : Eq K⦄ where
  -- The sum of the values of a table of amounts.
  abbrev pub total : Dict K ℤ → ℤ
  total [] = pos 0
  total ((k, v) ∷ d) = v +ℤ total d

  pub total-insert :
      (k : K) (v old : ℤ) (d : Dict K ℤ)
      → lookup k d ≡ some old
      → total (insert k v d) ≡ total d +ℤ (v -ℤ old)
  unfolding lookup insert
  total-insert k v old [] h = cc
  total-insert k v old ((j, w) ∷ d) h = elim (Bool-cases (e.beq j k)) [
    | inl same ↦
        let w-old : w ≡ old = some-injective _ _ (rw same at h) in rw (same, w-old) (omega int_laws)
    | inr other ↦ rw (other, total-insert k v old d (rw other at h)) (omega int_laws)
  ]

  pub total-insert_new :
      (k : K) (v : ℤ) (d : Dict K ℤ) → lookup k d ≡ none → total (insert k v d) ≡ total d +ℤ v
  unfolding lookup insert
  total-insert_new k v [] h = omega int_laws
  total-insert_new k v ((j, w) ∷ d) h = elim (Bool-cases (e.beq j k)) [
    | inl same ↦ cc (rw same at h)
    | inr other ↦ rw (other, total-insert_new k v d (rw other at h)) (omega int_laws)
  ]
