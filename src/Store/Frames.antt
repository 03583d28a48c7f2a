-- ===== src/Store/Frames.antt =====
-- What a transaction leaves alone: groups, payouts and contributions, and the money that there is.
use myturn_webportal.Prelude.{
  ◌≡◌, refl, ap, ◌∙◌, Bool, true, false, Result, ok, err, if◌then◌else◌, arith,
}
use myturn_webportal.Txn.{Tx, ◌>>=◌, >>=-eq-ok, lift, return}
use myturn_webportal.Ledger.Posting.{Ledger}
use myturn_webportal.Store.Lemmas.{in_ledger-eq-ok}
use myturn_webportal.Ledger.Conserved.{Conserves, Conserves-same, Conserves-trans, IsConserving}
use myturn_webportal.Store.{Db, in_ledger, on_ledger}

abbrev pub Keeps : Db → Db → Type 0
Keeps db db' =
    (db'.groups ≡ db.groups)
    × (db'.payouts ≡ db.payouts)
    × (db'.contributions ≡ db.contributions)
    × Conserves db.ledger db'.ledger

pub Keeps-trans : (a b c : Db) → Keeps a b → Keeps b c → Keeps a c
Keeps-trans a b c (g, p, k, l) (g', p', k', l') =
    (g' ∙ g, p' ∙ p, k' ∙ k, Conserves-trans a.ledger b.ledger c.ledger l l')

-- Writes of other tables.
pub Keeps-rows :
    (db db' : Db)
    → db'.groups ≡ db.groups
    → db'.payouts ≡ db.payouts
    → db'.contributions ≡ db.contributions
    → db'.ledger ≡ db.ledger
    → Keeps db db'
Keeps-rows db db' g p k l = (g, p, k, Conserves-same db.ledger db'.ledger l)

-- A step that only opens accounts, before one that keeps all this.
pub Keeps-opened :
    (f : Ledger → Ledger) (db db' : Db)
    → Conserves db.ledger (f db.ledger)
    → Keeps (on_ledger f db) db'
    → Keeps db db'
Keeps-opened f db db' opens (g, p, k, l) =
    (g, p, k, Conserves-trans db.ledger (f db.ledger) db'.ledger opens l)

-- A call that returns has left them alone.
abbrev pub IsFramed {ℓ} : {A : Type ℓ} → Tx Db A → Type ℓ
IsFramed {A = A} t = (db : Db) (a : A) (db' : Db) → t db ≡ ok (a, db') → Keeps db db'

module _ {A B : Type 0} where
  pub >>=-IsFramed :
      (m : Tx Db A) (f : A → Tx Db B) → IsFramed m → ((a : A) → IsFramed (f a)) → IsFramed (m >>= f)
  >>=-IsFramed m f first then_ db b db' h =
      let (a, mid, run, rest) = >>=-eq-ok m f db h in
      Keeps-trans db mid db' (first db a mid run) (then_ a mid b db' rest)

module _ {A : Type 0} where
  pub in_ledger-IsFramed :
      (f : Ledger → Result (A × Ledger)) → IsConserving f → IsFramed (in_ledger f)
  in_ledger-IsFramed f conserving db a db' h =
      let (run, same) = in_ledger-eq-ok f db h in
      (
        ap (λ (d : Db). d.groups) same,
        ap (λ (d : Db). d.payouts) same,
        ap (λ (d : Db). d.contributions) same,
        conserving db.ledger a db'.ledger run,
      )

  pub lift-IsFramed : (r : Result A) → IsFramed (lift {S = Db} r)
  lift-IsFramed (ok x) db a db' h =
      let same : db ≡ db' = ground arith in rw (← same) (Keeps-rows db db refl refl refl refl)
  lift-IsFramed (err e) db a db' h = cc h

  pub return-IsFramed : (x : A) → IsFramed (return {S = Db} x)
  return-IsFramed x db a db' h =
      let same : db ≡ db' = ground arith in rw (← same) (Keeps-rows db db refl refl refl refl)

  pub if-IsFramed :
      (b : Bool) (t e : Tx Db A)
      → IsFramed t
      → IsFramed e
      → (db : Db) (a : A) (db' : Db) → (if b then t db else e db) ≡ ok (a, db')
      → Keeps db db'
  if-IsFramed true t e ht he db a db' h = ht db a db' h
  if-IsFramed false t e ht he db a db' h = he db a db' h
