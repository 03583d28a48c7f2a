-- ===== src/Act.antt =====
-- A service method outside a transaction: what it has written stays written when it throws.
use myturn_webportal.Prelude.{Result, ok, err}
use myturn_webportal.Txn.{Tx}

abbrev pub Act {ℓ κ} : Type ℓ → Type κ → Type (ℓ ⊔ κ)
Act S A = S → Result A × S

-- What follows a step, on what it returned.
abbrev pub continue {ℓ κ μ} :
    {S : Type ℓ} {A : Type κ} {B : Type μ} → (A → Act S B) → Result A × S → Result B × S
continue f (ok a, s) = f a s
continue f (err e, s) = (err e, s)

infixl 5 ◌>>=◌ ◌>>◌
abbrev pub ◌>>=◌ {ℓ κ μ} :
    {S : Type ℓ} {A : Type κ} {B : Type μ} → Act S A → (A → Act S B) → Act S B
◌>>=◌ m f s = continue f (m s)

abbrev pub ◌>>◌ {ℓ κ} : {S : Type ℓ} {B : Type κ} → Act S (Unit {0}) → Act S B → Act S B
m >> k = m >>= λ _. k

-- `try { m } catch (e) { h }`
abbrev pub rescue {ℓ κ} : {S : Type ℓ} {A : Type κ} → Act S A → Result A × S → Result A × S
rescue h (ok a, s) = (ok a, s)
rescue h (err e, s) = h s

-- `prisma.$transaction`: rolled back on a throw.
abbrev pub committed {ℓ κ} : {S : Type ℓ} {A : Type κ} → S → Result (A × S) → Result A × S
committed s (ok (a, s')) = (ok a, s')
committed s (err e) = (err e, s)

abbrev pub transaction {ℓ κ} : {S : Type ℓ} {A : Type κ} → Tx S A → Act S A
transaction m s = committed s (m s)

module _ {ℓ κ} {S : Type ℓ} {A : Type κ} where
  abbrev pub return : A → Act S A
  return a s = (ok a, s)

  abbrev pub gets : (S → A) → Act S A
  gets f s = (ok (f s), s)

  abbrev pub lift : Result A → Act S A
  lift r s = (r, s)

abbrev pub modify {ℓ} : {S : Type ℓ} → (S → S) → Act S (Unit {0})
modify f s = (ok tt, f s)
