-- ===== src/CycleRisk/Compliance/Escrow.antt =====
-- Whatever a sync does, and wherever it throws, the escrow accounts hold the deposits.
use myturn_webportal.Prelude.{
  ℕ, ◌≡◌, refl, sym, ◌∙◌, inl, inr, Bool, true, false, some, arith, ◌==◌, ==_iff, Bool-cases,
  Option-cases, Result-cases, Result, ok, err, Error, notification_failed, leb,
}
use myturn_webportal.Prelude.Int.{pos}
use myturn_webportal.Act
use myturn_webportal.Txn
use myturn_webportal.Txn.{Tx, >>=-eq-ok}
use myturn_webportal.Ledger.Account.{member_wallet_reserved, group_pool}
use myturn_webportal.Store.Rows.{GroupMember, Contribution, MemberCycleStanding, DepositStatus}
use myturn_webportal.Store.Lemmas.{find_first-holds}
use myturn_webportal.Store.{Db}
use myturn_webportal.Reserve.Cover.{
  CoverParams, CoverResult, covered, not_covered, cover_key, cover_amount,
  cover_default_from_reserve_in_tx,
}
use myturn_webportal.Reserve.Cover.Cases.{cover-cases}
use myturn_webportal.Reserve.Split.{ReserveConfig}
use myturn_webportal.CycleRisk.Deposits.{
  MemberParams, is_held, find_member, with_deposit, set_deposit, forfeit_deposit_for_defaulted,
}
use myturn_webportal.CycleRisk.Deposits.Escrow.{IsEscrowed}
use myturn_webportal.CycleRisk.Deposits.Outcome.{forfeit-pays_pool}
use myturn_webportal.CycleRisk.Protection.{
  CycleNotices, DefaultParams, notice_cover, on_default, on_member_newly_defaulted, dequeue,
  with_order, set_standing, with_standing,
}
use myturn_webportal.CycleRisk.Safety.{
  KeepsOwners, KeepsOwners-trans, KeepsOwners-same, KeepsOwners-update, relabel-IsEscrowed,
  transfer-IsEscrowed, empty-IsEscrowed,
}
use myturn_webportal.CycleRisk.Compliance.{default_in_tx}

-- A step from `db` to `db'`.
abbrev pub IsSafe : Db → Db → Type 0
IsSafe db db' = IsEscrowed db' × KeepsOwners db db'

pub IsSafe-trans : (a b c : Db) → IsSafe a b → IsSafe b c → IsSafe a c
IsSafe-trans a b c first second = (second.0, KeepsOwners-trans a b c first.1 second.1)

pub IsSafe-refl : (db : Db) → IsEscrowed db → IsSafe db db
IsSafe-refl db e = (e, KeepsOwners-same db db refl)

pub set_standing-IsSafe :
    (s : MemberCycleStanding) (i : ℕ) (db : Db) → IsEscrowed db → IsSafe db (set_standing s i db)
set_standing-IsSafe s i db e = (
  relabel-IsEscrowed db (λ m. m.id == i) (with_standing s) (λ x. refl) (λ x. refl) (λ x. refl)
      (λ x. refl) e,
  KeepsOwners-update db (set_standing s i db) (λ m. m.id == i) (with_standing s) (λ x. refl)
      (λ x. refl) refl,
)

pub dequeue-IsSafe :
    (params : DefaultParams) (db : Db) → IsEscrowed db → IsSafe db (dequeue params db)
dequeue-IsSafe params db e = (
  relabel-IsEscrowed db (λ m. m.id == params.member_id) (with_order _) (λ x. refl) (λ x. refl)
      (λ x. refl) (λ x. refl) e,
  KeepsOwners-update db (dequeue params db) (λ m. m.id == params.member_id) (with_order _)
      (λ x. refl) (λ x. refl) refl,
)

-- The row that the parameters name, if it is there, is of the user that they name.
abbrev pub Names : ℕ → ℕ → Db → Type 0
Names member user db = (m : GroupMember) → find_member member db.members ≡ some m → m.user_id ≡ user

pub Names-keeps :
    (member user : ℕ) (db db' : Db)
    → KeepsOwners db db'
    → Names member user db
    → Names member user db'
Names-keeps member user db db' keeps names m found =
    let (m₀, found₀, same) = keeps member m found in sym same ∙ names m₀ found₀

abbrev of_member : GroupMember → ℕ → MemberParams
of_member m group = record { member_id = m.id; user_id = m.user_id; group_id = group }

forfeit_found-IsSafe :
    (m : GroupMember) (group : ℕ) (db : Db) {db' : Db}
    → IsEscrowed db
    → find_member m.id db.members ≡ some m
    → forfeit_deposit_for_defaulted (of_member m group) db ≡ ok (tt, db')
    → IsSafe db db'
unfolding forfeit_deposit_for_defaulted
forfeit_found-IsSafe m group db {db'} e found h = elim (Bool-cases (is_held m.deposit_status)) [
  | inr free ↦
      let h₁ = rw (found, free) at h in
      let same : db ≡ db' = ground arith in rw (← same) (IsSafe-refl db e)
  | inl held ↦ elim (Bool-cases (leb m.deposit_amount 0)) [
    | inl empty ↦
        let h₁ = rw (found, held, empty) at h in
        let same : set_deposit DepositStatus.forfeited m.id db ≡ db' = ground arith in
        rw (← same) (
          empty-IsEscrowed db m found empty e,
          KeepsOwners-update db (set_deposit DepositStatus.forfeited m.id db) (λ x. x.id == m.id)
              (with_deposit DepositStatus.forfeited) (λ x. refl) (λ x. refl) refl,
        )
    | inr above ↦
        let (final, run, after, _, _, rows) =
          forfeit-pays_pool db m e found held (ground arith) group in
        let both = sym run ∙ h in
        let same : final ≡ db' = ground arith in
        rw (← same) (
          after,
          KeepsOwners-update db final (λ x. x.id == m.id) (with_deposit DepositStatus.forfeited)
              (λ x. refl) (λ x. refl) rows,
        )
  ]
]

forfeit-IsSafe :
    (member user group : ℕ) (db : Db) {db' : Db}
    → IsEscrowed db
    → Names member user db
    → forfeit_deposit_for_defaulted
        (record { member_id = member; user_id = user; group_id = group })
        db
      ≡ ok (tt, db')
    → IsSafe db db'
unfolding forfeit_deposit_for_defaulted find_member
forfeit-IsSafe member user group db {db'} e names h =
    elim (Option-cases (find_member member db.members)) [
      | inl missing ↦
          let h₁ = rw missing at h in
          let same : db ≡ db' = ground arith in rw (← same) (IsSafe-refl db e)
      | inr (m, found) ↦
          let owner = names m found in
          let here : m.id ≡ member =
            (==_iff m.id member).0 (find_first-holds (λ x. x.id == member) db.members found) in
          forfeit_found-IsSafe m group db e (rw (← here) at found) (rw (← here, ← owner) at h)
    ]

abbrev cover_of : DefaultParams → CoverParams
cover_of params = record {
  user_id = params.user_id;
  group_id = params.group_id;
  contribution_id = params.contribution_id;
}

cover-IsSafe :
    (config : ReserveConfig) (params : DefaultParams) (db : Db) {res : CoverResult} {db' : Db}
    → IsEscrowed db
    → cover_default_from_reserve_in_tx config (cover_of params) db ≡ ok (res, db')
    → IsSafe db db'
cover-IsSafe config params db {res} {db'} e h = elim (cover-cases config (cover_of params) db h) [
  | inl (same, _) ↦ rw same (IsSafe-refl db e)
  | inr (c, r, _, _, done) ↦ (
    transfer-IsEscrowed db db' (cover_key (cover_of params) r)
        (member_wallet_reserved params.user_id) (group_pool params.group_id)
        (pos (cover_amount c r)) done.transfer done.members done.wallets (λ u. refl) (λ u. refl)
        (λ u. ground arith) (λ i. ground arith) (λ i. ground arith) e,
    KeepsOwners-same db db' done.members,
  )
]

-- Storing a notice changes nothing, or throws.
notice_same :
    (fails : Bool) (x : Error) (db : Db) {db' : Db}
    → Txn.throw_if fails x db ≡ ok (tt, db')
    → db ≡ db'
notice_same true x db h = cc h
notice_same false x db h = ground arith

notice_cover_same :
    (notices : CycleNotices) (user : ℕ) (res : CoverResult) (db : Db) {db' : Db}
    → notice_cover notices user res db ≡ ok (tt, db')
    → db ≡ db'
notice_cover_same notices user not_covered db h = ground arith
notice_cover_same notices user (covered c) db h = elim (Bool-cases c.fully_covered) [
  | inl full ↦ notice_same _ notification_failed db (rw full at h)
  | inr partly ↦ notice_same _ notification_failed db (rw partly at h)
]

on_default-IsSafe :
    (config : ReserveConfig) (notices : CycleNotices) (params : DefaultParams) (paid : Bool)
    (db : Db) {db' : Db}
    → IsEscrowed db
    → on_default config notices params paid db ≡ ok (tt, db')
    → IsSafe db db'
unfolding on_default
on_default-IsSafe config notices params true db {db'} e h =
    let (res, db₁, run, h₁) =
      >>=-eq-ok (cover_default_from_reserve_in_tx config (cover_of params))
        (notice_cover notices params.user_id) db h in
    let same = notice_cover_same notices params.user_id res db₁ h₁ in
    rw (← same) (cover-IsSafe config params db e run)
on_default-IsSafe config notices params false db {db'} e h =
    let same : dequeue params db ≡ db' = notice_same _ notification_failed (dequeue params db) h in
    rw (← same) (dequeue-IsSafe params db e)

pub default_in_tx-IsSafe :
    (config : ReserveConfig) (notices : CycleNotices) (m : GroupMember) (c : Contribution) (db : Db)
    {db' : Db}
    → IsEscrowed db
    → Names m.id m.user_id db
    → default_in_tx config notices m c db ≡ ok (tt, db')
    → IsSafe db db'
unfolding default_in_tx on_member_newly_defaulted
default_in_tx-IsSafe config notices m c db {db'} e names h =
    let marked = set_standing MemberCycleStanding.defaulted m.id db in
    let first : IsSafe db marked = set_standing-IsSafe MemberCycleStanding.defaulted m.id db e in
    let (_, db₂, run, h₂) =
      >>=-eq-ok (forfeit_deposit_for_defaulted (of_member m m.group_id)) _ marked h in
    let second : IsSafe marked db₂ =
      forfeit-IsSafe m.id m.user_id m.group_id marked first.0
        (Names-keeps m.id m.user_id db marked first.1 names) run in
    let third : IsSafe db₂ db' = on_default-IsSafe config notices _ _ db₂ second.0 h₂ in
    IsSafe-trans db marked db' first (IsSafe-trans marked db₂ db' second third)

pub transaction-IsSafe :
    (t : Tx Db (Unit {0})) (db : Db)
    → IsEscrowed db
    → ((db' : Db) → t db ≡ ok (tt, db') → IsSafe db db')
    → IsSafe db (Act.transaction t db).1
transaction-IsSafe t db e safe = elim (Result-cases (t db)) [
  | inl ((_, db'), run) ↦ rw run (safe db' run)
  | inr (x, failed) ↦ rw failed (IsSafe-refl db e)
]

-- One step after another: the second is run if the first returns.
pub continue-IsSafe :
    (f : Act.Act Db (Unit {0})) (db : Db) (x : Result (Unit {0}) × Db)
    → IsSafe db x.1
    → IsSafe x.1 (f x.1).1
    → IsSafe db (Act.continue (λ (_ : Unit {0}). f) x).1
continue-IsSafe f db (ok _, s) first second = IsSafe-trans db s (f s).1 first second
continue-IsSafe f db (err e, s) first second = first
