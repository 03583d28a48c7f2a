-- ===== src/Allocation/Settlement/Total.antt =====
-- A settlement moves money and makes none.
use myturn_webportal.Prelude.{◌≡◌, ok}
use myturn_webportal.Prelude.Int.{ℤ}
use myturn_webportal.Txn.{Tx}
use myturn_webportal.Dict.{total}
use myturn_webportal.Ledger.Account.{key_eq}
use myturn_webportal.Store.{Db}

abbrev total_of : Db → ℤ
total_of db = total db.ledger.accounts

-- A transaction that leaves the sum of all balances as it was.
abbrev Preserves : {A : Type 0} → Tx Db A → Type 0
Preserves {A} m = (db : Db) (a : A) (db' : Db) → m db ≡ ok (a, db') → total_of db' ≡ total_of db
