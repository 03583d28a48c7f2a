-- ===== src/Shared/Queue.antt =====
-- packages/shared/src/payout-recipient.ts: who receives the payout of a cycle.
pub mod Order
pub mod Walk
pub mod Selection
pub mod Rotation
use myturn_webportal.Prelude.{
  ℕ, zero, suc, ◌+◌, ◌%◌, Bool, true, false, Option, none, some, List, [], ◌∷◌, ◌++◌, if◌then◌else◌,
  leb, length, get_elem?, Result, ok, err, type_error,
}

pub data PayoutQueueStanding : Type 0 where
  active late defaulted : PayoutQueueStanding

pub record PayoutQueueMember : Type 0 where
  pub user_id : ℕ
  pub turn_order : ℕ
  pub effective_payout_order : ℕ
  pub cycle_standing : PayoutQueueStanding

pub record PayoutRecipientSelection : Type 0 where
  pub recipient : Option PayoutQueueMember
  pub skipped_defaulted : List PayoutQueueMember
  pub nominal_recipient : Option PayoutQueueMember

abbrev pub is_defaulted : PayoutQueueStanding → Bool
is_defaulted defaulted = true
is_defaulted _ = false

-- `Array.prototype.sort` is stable, so its result is that of an insertion sort that keeps the order
-- of equal members.
unfoldable pub insert_member : PayoutQueueMember → List PayoutQueueMember → List PayoutQueueMember
insert_member m [] = m ∷ []
insert_member m (x ∷ xs) =
    if leb m.effective_payout_order x.effective_payout_order
    then m ∷ x ∷ xs
    else x ∷ insert_member m xs

unfoldable pub sort_members : List PayoutQueueMember → List PayoutQueueMember
unfolding insert_member
sort_members [] = []
sort_members (m ∷ ms) = insert_member m (sort_members ms)

-- The loop: `i` steps past the nominal place, `left` members to go. Reading a place that is not
-- there would be a TypeError; `select_payout_recipient-total` shows that it does not happen.
unfoldable pub scan :
    List PayoutQueueMember
    → ℕ
    → Option PayoutQueueMember
    → ℕ
    → ℕ
    → List PayoutQueueMember
    → Result PayoutRecipientSelection
scan sorted base nominal zero i skipped =
    ok (record { recipient = none; skipped_defaulted = skipped; nominal_recipient = nominal })
scan sorted base nominal (suc left) i skipped =
    elim (get_elem? sorted ((base + i) % length sorted)) [
      | none ↦ err type_error
      | some m ↦ elim (is_defaulted m.cycle_standing) [
        | true ↦ scan sorted base nominal left (suc i) (skipped ++ (m ∷ []))
        | false ↦ ok (record {
          recipient = some m;
          skipped_defaulted = skipped;
          nominal_recipient = nominal;
        })
      ]
    ]

-- `options?.allowOverride && nominalRecipient`
select_from :
    Bool → Option PayoutQueueMember → List PayoutQueueMember → ℕ → Result PayoutRecipientSelection
unfolding scan
select_from true (some nominal) sorted base =
    ok (record {
      recipient = some nominal;
      skipped_defaulted = [];
      nominal_recipient = some nominal;
    })
select_from allow_override nominal sorted base = scan sorted base nominal (length sorted) 0 []

-- Cycles are numbered from 1. For 0 the index is -1, so the nominal recipient is null and the loop
-- reads `undefined.cycleStanding`.
select_sorted : List PayoutQueueMember → ℕ → Bool → Result PayoutRecipientSelection
unfolding select_from
select_sorted sorted zero allow_override = err type_error
select_sorted sorted (suc c) allow_override =
    let base = c % length sorted in select_from allow_override (get_elem? sorted base) sorted base

unfoldable pub select_payout_recipient :
    List PayoutQueueMember → ℕ → Bool → Result PayoutRecipientSelection
unfolding select_sorted sort_members
select_payout_recipient [] cycle_number allow_override =
    ok (record { recipient = none; skipped_defaulted = []; nominal_recipient = none })
select_payout_recipient (m ∷ ms) cycle_number allow_override =
    select_sorted (sort_members (m ∷ ms)) cycle_number allow_override
