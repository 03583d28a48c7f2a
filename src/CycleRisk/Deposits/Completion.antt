-- ===== src/CycleRisk/Deposits/Completion.antt =====
-- The deposits of a group that is completed: they go back to the members.
use myturn_webportal.Prelude.{
  ℕ, ◌≡◌, ◌≢◌, refl, sym, ◌∙◌, inl, inr, Bool, true, false, some, List, [], ◌∷◌, arith, ◌&&◌, ◌||◌,
  if◌then◌else◌, Bool-cases, ◌==◌, All, find_first, ok, leb,
}
use myturn_webportal.Txn.{>>=-ok}
use myturn_webportal.Store.Rows.{GroupMember, DepositStatus}
use myturn_webportal.Store.Lemmas.{IsAbsent, HasUniqueIds, All-weaken}
use myturn_webportal.Store.Filter.{All-filter_by, HasUniqueIds-filter_by, found_by_id}
use myturn_webportal.Store.{Db}
use myturn_webportal.CycleRisk.Deposits.{
  is_held, is_defaulted, find_member, with_deposit, held_members, release_member, release_members,
  release_all_held_deposits_for_group,
}
use myturn_webportal.CycleRisk.Deposits.Escrow.{IsEscrowed}
use myturn_webportal.CycleRisk.Deposits.Outcome.{release-returns}

-- What becomes of a member's row when the group is completed.
abbrev pub settled_member : GroupMember → GroupMember
settled_member m =
    if leb m.deposit_amount 0 || is_defaulted m.cycle_standing
    then m
    else with_deposit DepositStatus.released m

-- A snapshot of rows with held deposits, which are still as they were.
abbrev IsCurrent : Db → GroupMember → Type 0
IsCurrent db m = (find_member m.id db.members ≡ some m) × (is_held m.deposit_status ≡ true)

record Released (db : Db) (ms : List GroupMember) : Type 0 where
  final : Db
  run : release_members ms db ≡ ok (tt, final)
  escrowed : IsEscrowed final
  own : All (λ m. find_member m.id final.members ≡ some (settled_member m)) ms
  others :
      (i : ℕ) → IsAbsent (λ m. m.id) i ms → find_member i final.members ≡ find_member i db.members

record ReleasedOne (db : Db) (m : GroupMember) : Type 0 where
  final : Db
  run : release_member m db ≡ ok (tt, final)
  escrowed : IsEscrowed final
  own : find_member m.id final.members ≡ some (settled_member m)
  others : (i : ℕ) → m.id ≢ i → find_member i final.members ≡ find_member i db.members

released_one : (db : Db) (m : GroupMember) → IsEscrowed db → IsCurrent db m → ReleasedOne db m
unfolding release_member
released_one db m escrowed (found, held) = elim (Bool-cases (leb m.deposit_amount 0)) [
  | inl nothing ↦ record {
    final = db;
    run = rw nothing;
    escrowed = escrowed;
    own = rw nothing found;
    others = λ i _. refl;
  }
  | inr above ↦ elim (Bool-cases (is_defaulted m.cycle_standing)) [
    | inl bad ↦ record {
      final = db;
      run = rw (above, bad);
      escrowed = escrowed;
      own = rw (above, bad) found;
      others = λ i _. refl;
    }
    | inr good ↦
        let (db', run, e, own, others) =
          release-returns db m escrowed found held (ground arith) good in
        record { final = db'; run = run; escrowed = e; own = rw (above, good) own; others = others }
  ]
]

still-IsCurrent :
    (n : ℕ) (db db' : Db) (ms : List GroupMember)
    → ((i : ℕ) → n ≢ i → find_member i db'.members ≡ find_member i db.members)
    → IsAbsent (λ m. m.id) n ms
    → All (IsCurrent db) ms
    → All (IsCurrent db') ms
still-IsCurrent n db db' [] same absent all = tt
still-IsCurrent n db db' (m ∷ ms) same (ne, absent) ((found, held), all) =
    ((same m.id (λ e. ne (sym e)) ∙ found, held), still-IsCurrent n db db' ms same absent all)

releases_each :
    (ms : List GroupMember) (db : Db)
    → IsEscrowed db
    → HasUniqueIds (λ m. m.id) ms
    → All (IsCurrent db) ms
    → Released db ms
unfolding release_members
releases_each [] db escrowed unique current = record {
  final = db;
  run = refl;
  escrowed = escrowed;
  own = tt;
  others = λ i _. refl;
}
releases_each (m ∷ ms) db escrowed (absent, unique) (now, current) =
    let one = released_one db m escrowed now in
    let rest =
      releases_each ms one.final one.escrowed unique
        (still-IsCurrent m.id db one.final ms one.others absent current) in
    record {
      final = rest.final;
      run = >>=-ok (release_member m) (λ _. release_members ms) db one.run ∙ rest.run;
      escrowed = rest.escrowed;
      own = (rest.others m.id absent ∙ one.own, rest.own);
      others = λ i (ne, away). rest.others i away ∙ one.others i ne;
    }

and_right : (a b : Bool) → (a && b) ≡ true → b ≡ true
and_right true b h = h
and_right false b h = cc

-- When every escrow account holds the deposits of its owner, the release at the end of a group goes
-- through: each member's row with a held deposit becomes RELEASED, unless there is nothing in it or
-- the member is DEFAULTED, and every escrow account is left with exactly the deposits that are
-- still held.
pub release_deposits-returns :
    (group : ℕ) (db : Db)
    → IsEscrowed db
    → (db' : Db) × (release_all_held_deposits_for_group group db ≡ ok (tt, db'))
      × IsEscrowed db'
      × All
          (λ m. find_member m.id db'.members ≡ some (settled_member m))
          (held_members group db.members)
unfolding release_all_held_deposits_for_group find_member
release_deposits-returns group db escrowed =
    let selected =
      All-filter_by (λ m. find_first (λ z. z.id == m.id) db.members ≡ some m)
        (λ m. m.group_id == group && is_held m.deposit_status) db.members
        (found_by_id (λ m. m.id) db.members escrowed.unique_ids) in
    let all =
      releases_each (held_members group db.members) db escrowed
        (HasUniqueIds-filter_by (λ m. m.id) _ db.members escrowed.unique_ids)
        (All-weaken _ (IsCurrent db) (held_members group db.members)
          (λ m (found, both). (found, and_right _ _ both)) selected) in
    (all.final, all.run, all.escrowed, all.own)
