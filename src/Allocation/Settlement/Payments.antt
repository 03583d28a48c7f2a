-- ===== src/Allocation/Settlement/Payments.antt =====
-- A payment's row is new, and all that is written with it.
use myturn_webportal.Prelude.{◌≡◌, inl, inr, arith, Bool-cases, ok}
use myturn_webportal.Store.Rows.{Payment}
use myturn_webportal.Store.{Db}
use myturn_webportal.Allocation.Settlement.{create_payment, find_payment, is_some}

pub create_payment-ok :
    (p : Payment) (db : Db) {a : Unit {0}} {db' : Db}
    → create_payment p db ≡ ok (a, db')
    → (db'.ledger ≡ db.ledger) × (db'.members ≡ db.members) × (db'.wallets ≡ db.wallets)
unfolding create_payment
create_payment-ok p db {a} {db'} h =
    elim (Bool-cases (is_some (find_payment p.external_ref db.payments))) [
      | inl taken ↦ cc (rw taken at h)
      | inr free ↦ let h₁ = rw free at h in (ground arith, ground arith, ground arith)
    ]
