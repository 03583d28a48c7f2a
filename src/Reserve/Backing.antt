-- ===== src/Reserve/Backing.antt =====
-- What ties the reserve rows to each other and to the ledger, for all the operations on them.
use myturn_webportal.Prelude.{
  ℕ, ◌+◌, ◌≡◌, ap, ◌∙◌, inl, inr, Bool, true, false, some, List, [], ◌∷◌, arith, if◌then◌else◌,
  Bool-cases, ◌==◌, All, find_first, ok, ◌≤◌,
}
use mathlib.Core.Option.{some-injective}
use myturn_webportal.Prelude.Int.{pos, ◌+ℤ◌, neg, int_laws, +ℤ_zero}
use myturn_webportal.Ledger.Account.{AccountKey, key_eq, key_beq, member_wallet_reserved}
use myturn_webportal.Ledger.Accounts.{get_balance}
use myturn_webportal.Ledger.Moves.{move_between, move_between-balance}
use myturn_webportal.Ledger.Posting.Journal.{IdempotencyKey}
use myturn_webportal.Ledger.Posting.{Ledger, Posted}
use myturn_webportal.Store.Rows.{Reserve}
use myturn_webportal.Store.Lemmas.{
  sum_by, HasUniqueIds, sum_by-update, HasUniqueIds-update, All-update,
}
use myturn_webportal.Store.{update_rows, Db}

-- Every minor unit of a reserve is remaining, released or used for a default.
abbrev pub IsAccounted : Reserve → Type 0
IsAccounted r =
    r.original_reserve_amount
    ≡ r.remaining_reserve_amount + r.released_amount + r.used_for_default_amount

abbrev pub remaining_of : ℕ → Reserve → ℕ
remaining_of user r = if r.user_id == user then r.remaining_reserve_amount else 0

abbrev pub reserved_of : ℕ → List Reserve → ℕ
reserved_of user = sum_by (remaining_of user)

-- Each reserved wallet holds what remains of its owner's reserves.
abbrev pub IsBacked : Ledger → List Reserve → Type 0
IsBacked l reserves =
    (user : ℕ) → get_balance (member_wallet_reserved user) l ≡ pos (reserved_of user reserves)

pub record IsConsistent (db : Db) : Type 0 where
  pub unique_ids : HasUniqueIds (λ r. r.id) db.reserves
  pub accounted : All IsAccounted db.reserves
  pub backed : IsBacked db.ledger db.reserves

drained :
    (old new left had amount : ℕ)
    → new + had ≡ old + left
    → left + amount ≡ had
    → pos old +ℤ (neg (pos amount) +ℤ (pos 0 +ℤ pos 0)) ≡ pos new
drained old new left had amount e loses = omega int_laws

untouched : (old new : ℕ) → new + 0 ≡ old + 0 → pos old +ℤ (pos 0 +ℤ (pos 0 +ℤ pos 0)) ≡ pos new
untouched old new e = omega int_laws

module _ (key : IdempotencyKey) (user : ℕ) (to : AccountKey) (amount : ℕ) (before after : Ledger)
    {p : Posted}
    (h : move_between key (member_wallet_reserved user) to (pos amount) before
      ≡ ok (p, after)) where
  pub duplicate-IsBacked :
      (rows : List Reserve) → p.duplicate ≡ true → IsBacked before rows → IsBacked after rows
  duplicate-IsBacked rows dup backed u =
      let balance =
        move_between-balance key (member_wallet_reserved user) to (pos amount) before h
          (member_wallet_reserved u) in
      (rw dup at balance) ∙ +ℤ_zero _ ∙ backed u

  -- A new transfer out of a reserved wallet, when a row of its owner loses the same amount.
  pub drain-IsBacked :
      (rows : List Reserve) (q : Reserve → Bool) (f : Reserve → Reserve) (r : Reserve)
      → p.duplicate ≡ false
      → ((u : ℕ) → key_beq to (member_wallet_reserved u) ≡ false)
      → HasUniqueIds (λ x. x.id) rows
      → find_first q rows ≡ some r
      → r.user_id ≡ user
      → (f r).user_id ≡ r.user_id
      → (f r).remaining_reserve_amount + amount ≡ r.remaining_reserve_amount
      → IsBacked before rows
      → IsBacked after (update_rows (λ x. x.id == r.id) f rows)
  drain-IsBacked rows q f r new elsewhere unique found owner keeps_owner loses backed u =
      let balance =
        move_between-balance key (member_wallet_reserved user) to (pos amount) before h
          (member_wallet_reserved u) in
      let sums = sum_by-update (λ x. x.id) (remaining_of u) q f rows r unique found in
      elim (Bool-cases (user == u)) [
        | inl same ↦
            let mine : (r.user_id == u) ≡ true = rw owner same in
            rw (rw (new, elsewhere u, same, backed u) at balance)
              (drained _ _ _ _ _ (rw (keeps_owner, mine) at sums) loses)
        | inr differ ↦
            let others : (r.user_id == u) ≡ false = rw owner differ in
            rw (rw (new, elsewhere u, differ, backed u) at balance)
              (untouched _ _ (rw (keeps_owner, others) at sums))
      ]

module _ (key : IdempotencyKey) (user : ℕ) (to : AccountKey) (amount : ℕ) (db db' : Db) {p : Posted}
    (h : move_between key (member_wallet_reserved user) to (pos amount) db.ledger
      ≡ ok (p, db'.ledger))
    (c : IsConsistent db) where
  pub duplicate-IsConsistent : p.duplicate ≡ true → db'.reserves ≡ db.reserves → IsConsistent db'
  duplicate-IsConsistent dup same = record {
    unique_ids = rw same c.unique_ids;
    accounted = rw same c.accounted;
    backed =
        rw same
          (duplicate-IsBacked key user to amount db.ledger db'.ledger h db.reserves dup c.backed);
  }

  pub drain-IsConsistent :
      (q : Reserve → Bool) (f : Reserve → Reserve) (r : Reserve)
      → p.duplicate ≡ false
      → ((u : ℕ) → key_beq to (member_wallet_reserved u) ≡ false)
      → find_first q db.reserves ≡ some r
      → r.user_id ≡ user
      → ((x : Reserve) → ((f x).id ≡ x.id) × ((f x).user_id ≡ x.user_id))
      → (f r).remaining_reserve_amount + amount ≡ r.remaining_reserve_amount
      → (IsAccounted r → IsAccounted (f r))
      → db'.reserves ≡ update_rows (λ x. x.id == r.id) f db.reserves
      → IsConsistent db'
  drain-IsConsistent q f r new elsewhere found owner keeps loses keep_account rows = record {
    unique_ids = rw rows (
        HasUniqueIds-update (λ x. x.id) (λ x. x.id == r.id) f db.reserves (λ x. (keeps x).0)
          c.unique_ids);
    accounted = rw rows (
        All-update (λ x. x.id) IsAccounted q f db.reserves r c.unique_ids found keep_account
          c.accounted);
    backed = rw rows (
        drain-IsBacked key user to amount db.ledger db'.ledger h db.reserves q f r new elsewhere
          c.unique_ids found owner (keeps r).1 loses c.backed);
  }

-- A change of a row that leaves what remains as it is.
pub settle-IsConsistent :
    (db : Db) (q : Reserve → Bool) (f : Reserve → Reserve) (r : Reserve)
    → IsConsistent db
    → find_first q db.reserves ≡ some r
    → ((x : Reserve) → ((f x).id ≡ x.id) × ((f x).user_id ≡ x.user_id))
    → (f r).remaining_reserve_amount ≡ r.remaining_reserve_amount
    → (IsAccounted r → IsAccounted (f r))
    → IsConsistent (record db { reserves = update_rows (λ x. x.id == r.id) f db.reserves })
settle-IsConsistent db q f r c found keeps same keep_account = record {
  unique_ids =
      HasUniqueIds-update (λ x. x.id) (λ x. x.id == r.id) f db.reserves (λ x. (keeps x).0)
        c.unique_ids;
  accounted =
      All-update (λ x. x.id) IsAccounted q f db.reserves r c.unique_ids found keep_account
        c.accounted;
  backed = λ u.
      let sums = sum_by-update (λ x. x.id) (remaining_of u) q f db.reserves r c.unique_ids found in
      c.backed u ∙ ap pos (equal_sums _ _ (remaining_of u r) (rw ((keeps r).1, same) at sums));
}
  where
    equal_sums : (new old w : ℕ) → new + w ≡ old + w → old ≡ new
    equal_sums new old w e = omega arith

-- What remains of one reserve is at most what its owner's wallet holds.
pub remaining_le_reserved :
    (user : ℕ) (q : Reserve → Bool) (rows : List Reserve) (r : Reserve)
    → find_first q rows ≡ some r
    → r.user_id ≡ user
    → r.remaining_reserve_amount ≤ reserved_of user rows
remaining_le_reserved user q [] r found owner = ground arith
remaining_le_reserved user q (x ∷ rows) r found owner = elim (Bool-cases (q x)) [
  | inl hit ↦
      let x-r = some-injective _ _ (rw hit at found) in
      let mine : (x.user_id == user) ≡ true = rw (x-r, owner) (ground arith) in
      rw (mine, x-r) (omega arith)
  | inr miss ↦ omega (arith, remaining_le_reserved user q rows r (rw miss at found) owner)
]
