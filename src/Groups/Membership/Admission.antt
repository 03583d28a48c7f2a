-- ===== src/Groups/Membership/Admission.antt =====
-- Whoever comes into a group comes with a deposit in escrow.
use myturn_webportal.Prelude.{
  ℕ, suc, ◌≡◌, refl, sym, ap, ◌∙◌, inl, inr, true, false, List, ◌∷◌, arith, if◌then◌else◌, leb,
  Bool-cases, ◌==◌, ok, Result,
}
use myturn_webportal.Prelude.Int.{pos}
use myturn_webportal.Txn.{>>=-ok, >>=-eq-ok}
use myturn_webportal.Ledger.Account.{system_external, member_deposit_escrow}
use myturn_webportal.Ledger.Moves.{move_between}
use myturn_webportal.Ledger.Posting.Journal.{deposit_hold}
use myturn_webportal.Ledger.Posting.{Posted}
use myturn_webportal.Store.Rows.{GroupMember, DepositStatus}
use myturn_webportal.Store.Lemmas.{in_ledger-eq-ok, IsAbsent, update_rows-absent}
use myturn_webportal.Store.{Db, in_ledger, update_rows}
use myturn_webportal.Allocation.Settlement.{create_payment}
use myturn_webportal.Allocation.Settlement.Payments.{create_payment-ok}
use myturn_webportal.CycleRisk.Deposits.{
  JoinDepositResult, JoinParams, is_held, deposit_required_amount, deposit_payment, no_deposit,
  hold_deposit, apply_deposit_on_join, ensure_legacy_deposit_escrow_migrated_in_tx,
}
use myturn_webportal.CycleRisk.Deposits.Escrow.{IsEscrowed}
use myturn_webportal.CycleRisk.Deposits.Join.{IsNew, joined-IsEscrowed, without-IsEscrowed}
use myturn_webportal.CycleRisk.Deposits.Migration.{migrates}
use myturn_webportal.CycleRisk.Deposits.Secured.{Migrated}
use myturn_webportal.Groups.Membership.{
  NewMember, new_member, create_member, with_join_deposit, set_join_deposit, admit, is_taken,
}

-- The row with what the group asks for.
abbrev pub joined_row : NewMember → ℕ → GroupMember
joined_row n id =
    if leb (deposit_required_amount n.group) 0
    then new_member n id
    else with_join_deposit
        (record {
          deposit_amount = deposit_required_amount n.group;
          deposit_status = DepositStatus.held;
        })
        (new_member n id)

-- What a hold that returns has done.
record Held (params : JoinParams) (amount payment : ℕ) (db db' : Db) (dep : JoinDepositResult)
    : Type 0 where
  posted : Posted
  moved :
      move_between
        (deposit_hold payment)
        system_external
        (member_deposit_escrow params.user_id)
        (pos amount)
        db.ledger
      ≡ ok (posted, db'.ledger)
  members : db'.members ≡ db.members
  wallets : db'.wallets ≡ db.wallets
  result : dep ≡ record { deposit_amount = amount; deposit_status = DepositStatus.held }

hold_deposit-ok :
    (params : JoinParams) (amount payment : ℕ) (db : Db) (dep : JoinDepositResult) {db' : Db}
    → hold_deposit params amount payment db ≡ ok (dep, db')
    → Held params amount payment db db' dep
unfolding hold_deposit
hold_deposit-ok params amount payment db dep {db'} h =
    let move =
      move_between (deposit_hold payment) system_external (member_deposit_escrow params.user_id)
        (pos amount) in
    let (_, db₁, created, h₁) =
      >>=-eq-ok (create_payment (deposit_payment params amount payment)) _ db h in
    let (ledger, members, wallets) =
      create_payment-ok (deposit_payment params amount payment) db created in
    let (p, db₂, posted, h₂) = >>=-eq-ok (in_ledger move) _ db₁ h₁ in
    let (run, rest) = in_ledger-eq-ok move db₁ posted in
    let same : db₂ ≡ db' = ground arith in
    record {
      posted = p;
      moved = rw ledger at (rw (ap (λ (d : Db). d.ledger) same) at run);
      members = ap (λ (d : Db). d.members) (sym same) ∙ ap (λ (d : Db). d.members) rest ∙ members;
      wallets = ap (λ (d : Db). d.wallets) (sym same) ∙ ap (λ (d : Db). d.wallets) rest ∙ wallets;
      result = ground arith;
    }

-- The deposits are about balances, members and legacy wallets only.
IsEscrowed-same :
    (db db' : Db)
    → db'.ledger ≡ db.ledger
    → db'.members ≡ db.members
    → db'.wallets ≡ db.wallets
    → IsEscrowed db
    → IsEscrowed db'
IsEscrowed-same db db' l m w e = record {
  unique_ids = rw m e.unique_ids;
  deposits = λ u. rw (w, l, m) (e.deposits u);
  migratable = λ u h. rw l (e.migratable u (rw w at h));
  are_open = rw (m, l) e.are_open;
  solvent = rw l e.solvent;
}

-- What the new row becomes.
settled_row :
    (n : NewMember) (id : ℕ) (dep : JoinDepositResult) (ms : List GroupMember)
    → IsAbsent (λ (x : GroupMember). x.id) id ms
    → update_rows (λ m. m.id == id) (with_join_deposit dep) (new_member n id ∷ ms)
      ≡ with_join_deposit dep (new_member n id) ∷ ms
unfolding update_rows
settled_row n id dep ms absent =
    let mine : (id == id) ≡ true = ground arith in
    rw mine (
      ap (λ xs. with_join_deposit dep (new_member n id) ∷ xs)
        (update_rows-absent (λ m. m.id) id (with_join_deposit dep) ms absent))

module _ (n : NewMember) (db : Db) (escrowed : IsEscrowed db)
    (new : IsNew db.next_id (suc db.next_id) db) where
  abbrev created : Db
  created = record db { members = new_member n db.next_id ∷ db.members; next_id = suc db.next_id }

  abbrev params : JoinParams
  params = record { user_id = n.user_id; member_id = db.next_id; group = n.group; now = n.now }

  created-IsEscrowed : IsEscrowed created
  created-IsEscrowed =
      let e = without-IsEscrowed db (new_member n db.next_id) escrowed new.absent refl in
      IsEscrowed-same (record db { members = new_member n db.next_id ∷ db.members }) created refl
        refl refl e

  abbrev Joined : JoinDepositResult → Db → Type 0
  Joined dep after =
      IsEscrowed (set_join_deposit db.next_id dep after)
      × ((set_join_deposit db.next_id dep after).members ≡ joined_row n db.next_id ∷ db.members)

  Held-Joined :
      (mid after : Db) (dep : JoinDepositResult)
      → leb (deposit_required_amount n.group) 0 ≡ false
      → Migrated n.user_id created mid
      → Held params (deposit_required_amount n.group) mid.next_id mid after dep
      → Joined dep after
  Held-Joined mid after dep asks m h =
      let row = with_join_deposit dep (new_member n db.next_id) in
      let mid₀ = record mid { members = db.members; next_id = db.next_id } in
      let m₀ : Migrated n.user_id db mid₀ = record {
        escrow = m.escrow;
        settled = m.settled;
        balances = m.balances;
        wallets = m.wallets;
        keys = m.keys;
        solvent = m.solvent;
        rest = ap (λ (d : Db). record d { members = db.members; next_id = db.next_id }) m.rest;
      } in
      let paid_as : mid.next_id ≡ suc db.next_id = ap (λ (d : Db). d.next_id) m.rest in
      let amount : row.deposit_amount ≡ deposit_required_amount n.group =
        ap (λ (d : JoinDepositResult). d.deposit_amount) h.result in
      let held : is_held row.deposit_status ≡ true =
        ap (λ (d : JoinDepositResult). is_held d.deposit_status) h.result in
      let e =
        joined-IsEscrowed db mid₀ row mid.next_id escrowed (rw paid_as new) held m₀ h.posted
          after.ledger (rw amount h.moved) in
      let rows : (set_join_deposit db.next_id dep after).members ≡ row ∷ db.members =
        ap (update_rows (λ x. x.id == db.next_id) (with_join_deposit dep))
          (h.members ∙ ap (λ (d : Db). d.members) m.rest)
        ∙ settled_row n db.next_id dep db.members new.absent in
      (
        IsEscrowed-same (record mid₀ { ledger = after.ledger; members = row ∷ db.members })
            (set_join_deposit db.next_id dep after) refl rows h.wallets e,
        rows
            ∙ rw asks
                (ap (λ d. with_join_deposit d (new_member n db.next_id) ∷ db.members) h.result),
      )

  applied-Joined :
      (dep : JoinDepositResult) {after : Db}
      → apply_deposit_on_join params created ≡ ok (dep, after)
      → Joined dep after
  unfolding apply_deposit_on_join
  applied-Joined dep {after} h = elim (Bool-cases (leb (deposit_required_amount n.group) 0)) [
    | inl nothing ↦
        let h₁ = rw nothing at h in
        let none_asked : dep ≡ no_deposit = ground arith in
        let same : after ≡ created = ground arith in
        let rows : (set_join_deposit db.next_id no_deposit created).members ≡ created.members =
          settled_row n db.next_id no_deposit db.members new.absent in
        rw (none_asked, same, nothing)
          (
            IsEscrowed-same created (set_join_deposit db.next_id no_deposit created) refl rows refl
                created-IsEscrowed,
            rows,
          )
    | inr asks ↦
        let (mid, run, migrated) =
          migrates n.user_id created created-IsEscrowed.solvent
            (created-IsEscrowed.migratable n.user_id) in
        let through =
          >>=-ok (ensure_legacy_deposit_escrow_migrated_in_tx n.user_id)
            (λ _ later. hold_deposit params (deposit_required_amount n.group) later.next_id later)
            created run in
        let held = sym through ∙ rw asks at h in
        Held-Joined mid after dep asks migrated
          (hold_deposit-ok params (deposit_required_amount n.group) mid.next_id mid dep held)
  ]

create_member-ok :
    (n : NewMember) (db : Db) (e : IsEscrowed db) (new : IsNew db.next_id (suc db.next_id) db)
    (id : ℕ) {db' : Db}
    → create_member n db ≡ ok (id, db')
    → (id ≡ db.next_id) × (db' ≡ created n db e new)
unfolding create_member
create_member-ok n db e new id {db'} h =
    elim (Bool-cases (is_taken n.group.id n.user_id db.members)) [
      | inl taken ↦ cc (rw taken at h)
      | inr free ↦ let h₁ = rw free at h in (ground arith, ground arith)
    ]

admitted :
    (n : NewMember) (db : Db) (e : IsEscrowed db) (new : IsNew db.next_id (suc db.next_id) db)
    (id₀ id : ℕ) (db₀ : Db) (dep : JoinDepositResult) (after db' : Db)
    → id₀ ≡ db.next_id
    → db₀ ≡ created n db e new
    → apply_deposit_on_join
        (record { user_id = n.user_id; member_id = id₀; group = n.group; now = n.now })
        db₀
      ≡ ok (dep, after)
    → ◌≡◌ {A = Result (ℕ × Db)} (ok (id₀, set_join_deposit id₀ dep after)) (ok (id, db'))
    → IsEscrowed db' × (db'.members ≡ joined_row n db.next_id ∷ db.members) × (id ≡ db.next_id)
admitted n db e new id₀ id db₀ dep after db' first same₀ applied h =
    let (escrow, rows) = applied-Joined n db e new dep (rw (first, same₀) at applied) in
    let same : db' ≡ set_join_deposit id₀ dep after = ground arith in
    let same_id : id ≡ id₀ = ground arith in rw (same, same_id, first) (escrow, rows, refl)

-- Whoever is admitted, while every escrow account holds the deposits of its owner and the ids that
-- the database gives out are new: the group's members gain one row, with the whole deposit that the
-- group asks for marked HELD, or none, and every escrow account holds the deposits of its owner
-- again, the new one included, a legacy wallet of theirs migrated.
pub admit-IsEscrowed :
    (n : NewMember) (db : Db) {id : ℕ} {db' : Db}
    → IsEscrowed db
    → IsNew db.next_id (suc db.next_id) db
    → admit n db ≡ ok (id, db')
    → IsEscrowed db' × (db'.members ≡ joined_row n db.next_id ∷ db.members) × (id ≡ db.next_id)
unfolding admit
admit-IsEscrowed n db {id} {db'} e new h =
    let (id₀, db₀, made, h₁) = >>=-eq-ok (create_member n) _ db h in
    let (first, same₀) = create_member-ok n db e new id₀ made in
    let (dep, after, applied, h₂) = >>=-eq-ok (apply_deposit_on_join _) _ db₀ h₁ in
    admitted n db e new id₀ id db₀ dep after db' first same₀ applied h₂
