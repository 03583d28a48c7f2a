-- ===== src/Shared/Queue/Selection.antt =====
-- Whom selectPayoutRecipient selects.
use native.Mathlib.Nat.{zero-add}
use mathlib.Core.Path.{◌∙◌}
use myturn_webportal.Prelude.{
  ℕ, suc, ◌%◌, ◌<◌, ◌≡◌, ◌↔◌, refl, sym, true, false, Option, none, some, List, [], ◌∷◌, arith,
  length, get_elem?, All, ok,
}
use myturn_webportal.Shared.Queue.{
  PayoutQueueMember, PayoutRecipientSelection, is_defaulted, sort_members, scan,
  select_payout_recipient,
}
use myturn_webportal.Shared.Queue.Order.{length-sort_members, All-sort_members}
use myturn_webportal.Shared.Queue.Walk.{
  Ends, Scanned, scan-Scanned, Visited-All, place_reached, All-of_get, get-All,
}

-- The nominal place of a cycle: the queue is walked round and round.
abbrev pub nominal_place : List PayoutQueueMember → ℕ → ℕ
nominal_place sorted c = c % length sorted

ok-injective : {A : Type 0} (a b : A) → ok a ≡ ok b → a ≡ b
ok-injective a b e = cc

-- A recipient, if there is one, is not DEFAULTED.
abbrev pub IsNoneOrEligible : Option PayoutQueueMember → Type 0
IsNoneOrEligible none = Unit
IsNoneOrEligible (some m) = is_defaulted m.cycle_standing ≡ false

module _ (queue : List PayoutQueueMember) (base : ℕ) (nominal : Option PayoutQueueMember) where
  eligible :
      (s : PayoutRecipientSelection)
      → Scanned queue base nominal 0 (length queue) [] s
      → IsNoneOrEligible s.recipient
  eligible s w = eligible_end s.recipient w.ends
    where
      eligible_end :
          (r : Option PayoutQueueMember)
          → Ends queue base nominal 0 (length queue) w.more r
          → IsNoneOrEligible r
      eligible_end none h = tt
      eligible_end (some m) h = h.1

  everyone :
      (s : PayoutRecipientSelection)
      → Scanned queue base nominal 0 (length queue) [] s
      → base < length queue
      → s.recipient ≡ none
      → All (λ m. is_defaulted m.cycle_standing ≡ true) queue
  everyone s w lt nobody =
      let whole : length w.more ≡ length queue =
        let h : Ends queue base nominal 0 (length queue) w.more none = rw nobody at w.ends in h in
      All-of_get _ queue λ j m j_lt g.
        let (t, t_lt, there) = place_reached (length queue) base j lt j_lt in
        Visited-All queue base nominal 0 w.more t m w.visited w.only_defaulted (rw whole t_lt)
          (rw (zero-add, there) g)

  nobody :
      (s : PayoutRecipientSelection)
      → Scanned queue base nominal 0 (length queue) [] s
      → All (λ m. is_defaulted m.cycle_standing ≡ true) queue
      → s.recipient ≡ none
  nobody s w all = none_left s.recipient w.ends
    where
      none_left :
          (r : Option PayoutQueueMember)
          → Ends queue base nominal 0 (length queue) w.more r
          → r ≡ none
      none_left none h = refl
      none_left (some m) h = cc (get-All _ queue _ m all h.0, h.1)

module _ (first : PayoutQueueMember) (rest : List PayoutQueueMember) (c : ℕ) where
  abbrev pub queue : List PayoutQueueMember
  queue = sort_members (first ∷ rest)

  pub queue-nonempty : 0 < length queue
  queue-nonempty = omega (arith, length-sort_members (first ∷ rest))

  -- Without an override the selection is the loop's.
  pub select_payout_recipient-scan :
      select_payout_recipient (first ∷ rest) (suc c) false
      ≡ scan queue
          (nominal_place queue c)
          (get_elem? queue (nominal_place queue c))
          (length queue)
          0
          []
  unfolding select_payout_recipient
  select_payout_recipient-scan = refl

  -- Without an override a selection is always made, and it is what the walk from the nominal place
  -- promises: it passes only DEFAULTED members, in the order of the queue, each place once, and ends
  -- at the first member who is not DEFAULTED, or after a whole round with nobody.
  pub select_payout_recipient-walks :
      (s : PayoutRecipientSelection) × (select_payout_recipient (first ∷ rest) (suc c) false ≡ ok s)
      × Scanned queue
          (nominal_place queue c)
          (get_elem? queue (nominal_place queue c))
          0
          (length queue)
          []
          s
  select_payout_recipient-walks =
      let (s, r, w) =
        scan-Scanned queue (nominal_place queue c) (get_elem? queue (nominal_place queue c))
          (length queue) 0 [] queue-nonempty in
      (s, select_payout_recipient-scan ∙ r, w)

  walked :
      (s : PayoutRecipientSelection)
      → select_payout_recipient (first ∷ rest) (suc c) false ≡ ok s
      → Scanned queue
          (nominal_place queue c)
          (get_elem? queue (nominal_place queue c))
          0
          (length queue)
          []
          s
  walked s e =
      let (t, r, w) = select_payout_recipient-walks in
      let same : t ≡ s = ok-injective t s (sym r ∙ e) in rw (← same) w

  -- Without an override the recipient is never DEFAULTED, and there is none exactly when all the
  -- members are DEFAULTED.
  pub select_payout_recipient-eligible :
      (s : PayoutRecipientSelection)
      → select_payout_recipient (first ∷ rest) (suc c) false ≡ ok s
      → ((s.recipient ≡ none) ↔ All (λ m. is_defaulted m.cycle_standing ≡ true) (first ∷ rest))
        × (IsNoneOrEligible s.recipient)
  select_payout_recipient-eligible s e =
      let base = nominal_place queue c in
      let nominal = get_elem? queue base in
      let w = walked s e in
      let some_members = queue-nonempty in
      (
        (
          λ nobody_left.
              (All-sort_members (λ m. is_defaulted m.cycle_standing ≡ true) (first ∷ rest)).0
                (everyone queue base nominal s w (omega arith) nobody_left),
          λ all.
              nobody queue base nominal s w (
                (All-sort_members (λ m. is_defaulted m.cycle_standing ≡ true) (first ∷ rest)).1
                  all),
        ),
        eligible queue base nominal s w,
      )
