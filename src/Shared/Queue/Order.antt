-- ===== src/Shared/Queue/Order.antt =====
-- The sorting of the payout queue.
use mathlib.Core.List.{Perm}
use mathlib.Core.List.Perm
use myturn_webportal.Prelude.{
  ℕ, suc, ◌≤◌, ◌≡◌, ◌↔◌, refl, inl, inr, List, [], ◌∷◌, arith, leb, Bool-cases, length, All,
}
use myturn_webportal.Shared.Queue.{PayoutQueueMember, insert_member, sort_members}

insert_member-perm :
    (m : PayoutQueueMember) (xs : List PayoutQueueMember) → Perm (insert_member m xs) (m ∷ xs)
unfolding insert_member
insert_member-perm m [] = Perm.refl _
insert_member-perm m (x ∷ xs) =
    elim (Bool-cases (leb m.effective_payout_order x.effective_payout_order)) [
      | inl e ↦ rw e (Perm.refl _)
      | inr e ↦ rw e (Perm.trans (Perm.cons x (insert_member-perm m xs)) (Perm.swap m x xs))
    ]

-- Sorting keeps every member, as often as it was there.
sort_members-perm : (ms : List PayoutQueueMember) → Perm (sort_members ms) ms
unfolding sort_members
sort_members-perm [] = Perm.refl []
sort_members-perm (m ∷ ms) =
    Perm.trans (insert_member-perm m (sort_members ms)) (Perm.cons m (sort_members-perm ms))

-- Each member stands before those with a larger order.
abbrev IsOrdered : List PayoutQueueMember → Type 0
IsOrdered [] = Unit
IsOrdered (m ∷ ms) =
    All (λ x. m.effective_payout_order ≤ x.effective_payout_order) ms × IsOrdered ms

insert_member-All :
    (k : ℕ) (m : PayoutQueueMember) (xs : List PayoutQueueMember)
    → k ≤ m.effective_payout_order
    → All (λ x. k ≤ x.effective_payout_order) xs
    → All (λ x. k ≤ x.effective_payout_order) (insert_member m xs)
unfolding insert_member
insert_member-All k m [] h a = (h, tt)
insert_member-All k m (x ∷ xs) h (p, ps) =
    elim (Bool-cases (leb m.effective_payout_order x.effective_payout_order)) [
      | inl e ↦ rw e (h, (p, ps))
      | inr e ↦ rw e (p, insert_member-All k m xs h ps)
    ]

All-weaken :
    (j k : ℕ) (xs : List PayoutQueueMember)
    → j ≤ k
    → All (λ x. k ≤ x.effective_payout_order) xs
    → All (λ x. j ≤ x.effective_payout_order) xs
All-weaken j k [] h a = tt
All-weaken j k (x ∷ xs) h (p, ps) = (omega arith, All-weaken j k xs h ps)

insert_member-IsOrdered :
    (m : PayoutQueueMember) (xs : List PayoutQueueMember)
    → IsOrdered xs
    → IsOrdered (insert_member m xs)
unfolding insert_member
insert_member-IsOrdered m [] o = (tt, tt)
insert_member-IsOrdered m (x ∷ xs) (a, o) =
    elim (Bool-cases (leb m.effective_payout_order x.effective_payout_order)) [
      | inl e ↦
          let le : m.effective_payout_order ≤ x.effective_payout_order = ground arith in
          rw e ((le, All-weaken m.effective_payout_order x.effective_payout_order xs le a), (a, o))
      | inr e ↦ rw e (
        insert_member-All x.effective_payout_order m xs (ground arith) a,
        insert_member-IsOrdered m xs o,
      )
    ]

-- Sorting puts the members in the order of their effective payout places.
sort_members-IsOrdered : (ms : List PayoutQueueMember) → IsOrdered (sort_members ms)
unfolding sort_members
sort_members-IsOrdered [] = tt
sort_members-IsOrdered (m ∷ ms) =
    insert_member-IsOrdered m (sort_members ms) (sort_members-IsOrdered ms)

insert_member-length :
    (m : PayoutQueueMember) (xs : List PayoutQueueMember)
    → length (insert_member m xs) ≡ suc (length xs)
unfolding insert_member
insert_member-length m [] = refl
insert_member-length m (x ∷ xs) = ground (arith, insert_member-length m xs)

pub length-sort_members : (ms : List PayoutQueueMember) → length (sort_members ms) ≡ length ms
unfolding sort_members
length-sort_members [] = refl
length-sort_members (m ∷ ms) =
    ground (arith, insert_member-length m (sort_members ms), length-sort_members ms)

All-insert_member {κ} :
    (P : PayoutQueueMember → Type κ) (m : PayoutQueueMember) (xs : List PayoutQueueMember)
    → All P (insert_member m xs) ↔ All P (m ∷ xs)
unfolding insert_member
All-insert_member P m [] = (λ a. a, λ a. a)
All-insert_member P m (x ∷ xs) =
    let (there, back) = All-insert_member P m xs in
    elim (Bool-cases (leb m.effective_payout_order x.effective_payout_order)) [
      | inl e ↦ rw e (λ a. a, λ a. a)
      | inr e ↦ rw e (λ (p, a). ((there a).0, (p, (there a).1)), λ (q, (p, a)). (p, back (q, a)))
    ]

-- What holds of every member of the queue holds of every member of the sorted queue, and back.
pub All-sort_members {κ} :
    (P : PayoutQueueMember → Type κ) (ms : List PayoutQueueMember)
    → All P (sort_members ms) ↔ All P ms
unfolding sort_members
All-sort_members P [] = (λ a. a, λ a. a)
All-sort_members P (m ∷ ms) =
    let (out, into) = All-insert_member P m (sort_members ms) in
    let (there, back) = All-sort_members P ms in
    (λ a. ((out a).0, there (out a).1), λ (p, a). into (p, back a))
