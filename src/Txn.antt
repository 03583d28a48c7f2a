-- ===== src/Txn.antt =====
-- A body of `prisma.$transaction`: it reads and writes a state, and a throw rolls back, so an error
-- carries no state.
use myturn_webportal.Prelude.{
  ◌≡◌, ◌∙◌, ap, refl, arith, Bool, true, false, Option, none, some, Error, Result, ok, err,
}

abbrev pub Tx {ℓ κ} : Type ℓ → Type κ → Type (ℓ ⊔ κ)
Tx S A = S → Result (A × S)

infixl 5 ◌>>=◌ ◌>>◌
abbrev pub ◌>>=◌ {ℓ κ μ} : {S : Type ℓ} {A : Type κ} {B : Type μ} → Tx S A → (A → Tx S B) → Tx S B
◌>>=◌ m f s = elim (m s) [ ok (a, s') ↦ f a s' | err e ↦ err e ]

abbrev pub ◌>>◌ {ℓ κ} : {S : Type ℓ} {B : Type κ} → Tx S (Unit {0}) → Tx S B → Tx S B
m >> k = m >>= λ _. k

module _ {ℓ κ} {S : Type ℓ} {A : Type κ} where
  abbrev pub return : A → Tx S A
  return a s = ok (a, s)

  abbrev pub throw : Error → Tx S A
  throw e s = err e

  abbrev pub gets : (S → A) → Tx S A
  gets f s = ok (f s, s)

  abbrev pub or_throw : Option A → Error → Tx S A
  or_throw none e s = err e
  or_throw (some a) e s = ok (a, s)

  -- A pure computation that may throw.
  abbrev pub lift : Result A → Tx S A
  lift (ok a) s = ok (a, s)
  lift (err e) s = err e

abbrev pub throw_if {ℓ} : {S : Type ℓ} → Bool → Error → Tx S (Unit {0})
throw_if true e s = err e
throw_if false e s = ok (tt, s)

abbrev pub modify {ℓ} : {S : Type ℓ} → (S → S) → Tx S (Unit {0})
modify f s = ok (tt, f s)

-- Inversion of a sequence that returns.
pub >>=-eq-ok {ℓ κ μ} :
    {S : Type ℓ} {A : Type κ} {B : Type μ} (m : Tx S A) (f : A → Tx S B) (s : S) {r : B × S}
    → (m >>= f) s ≡ ok r
    → (a : A) × (s' : S) × (m s ≡ ok (a, s')) × (f a s' ≡ ok r)
>>=-eq-ok {S} {A} {B} m f s {r} h = from (m s) refl h
  where
    from :
        (x : Result (A × S))
        → m s ≡ x
        → ◌≡◌ {A = Result (B × S)} (elim x [ ok (a, s') ↦ f a s' | err e ↦ err e ]) (ok r)
        → (a : A) × (s' : S) × (m s ≡ ok (a, s')) × (f a s' ≡ ok r)
    from (ok (a, s')) e h' = (a, s', e, h')
    from (err x) e h' = cc h'

-- The first step of a sequence, when it is known to return or to throw.
module _ {ℓ κ μ} {S : Type ℓ} {A : Type κ} {B : Type μ} (m : Tx S A) (f : A → Tx S B) (s : S) where
  pub >>=-ok : {a : A} {s' : S} → m s ≡ ok (a, s') → (m >>= f) s ≡ f a s'
  >>=-ok h = rw (h, ◌>>=◌)

  pub >>=-err : {e : Error} → m s ≡ err e → (m >>= f) s ≡ err e
  >>=-err h = rw (h, ◌>>=◌)

module _ {ℓ κ} {S : Type ℓ} {A : Type κ} where
  pub lift-ok :
      (r : Result A) (s : S) (a : A) {s' : S} → lift r s ≡ ok (a, s') → (r ≡ ok a) × (s ≡ s')
  lift-ok (ok x) s a h = (ground arith, ground arith)
  lift-ok (err e) s a h = cc h

  pub or_throw-ok :
      (o : Option A) (e : Error) (s : S) (a : A) {s' : S}
      → or_throw o e s ≡ ok (a, s')
      → (o ≡ some a) × (s ≡ s')
  or_throw-ok none e s a h = cc h
  or_throw-ok (some x) e s a h = (ground arith, ground arith)

module _ {ℓ κ} {S : Type ℓ} {A : Type κ} where
  pub guarded-ok :
      (b : Bool) (e : Error) (k : Tx S A) (s : S) {r : A × S}
      → (throw_if b e >> k) s ≡ ok r
      → (b ≡ false) × (k s ≡ ok r)
  guarded-ok true e k s h = cc h
  guarded-ok false e k s h = (refl, h)

  -- A step that was taken in an equal state.
  pub run_at : (s s₁ : S) (t : Tx S A) {r : Result (A × S)} → s ≡ s₁ → t s₁ ≡ r → t s ≡ r
  run_at s s₁ t same h = ap t same ∙ h
