-- ===== src/Shared/Queue/Rotation.antt =====
-- The turns over the cycles of a group.
use native.Mathlib.Nat.{mod-eq_of_lt, add-zero}
use mathlib.Core.Path.{◌∙◌, subst}
use myturn_webportal.Prelude.{
  ℕ, zero, suc, ◌+◌, ◌%◌, ◌<◌, ◌≡◌, refl, sym, ap, ◌⊎◌, inl, inr, true, false, Option, some, List,
  [], ◌∷◌, arith, length, get_elem?, All, ok,
}
use myturn_webportal.Shared.Queue.{
  PayoutQueueMember, PayoutRecipientSelection, is_defaulted, sort_members, scan,
  select_payout_recipient,
}
use myturn_webportal.Shared.Queue.Order.{length-sort_members, All-sort_members}
use myturn_webportal.Shared.Queue.Walk.{scan-stop, scan-skip, get-All, get_elem?-some}
use myturn_webportal.Shared.Queue.Selection.{
  queue, queue-nonempty, nominal_place, select_payout_recipient-scan,
}

abbrev pub selection_of :
    PayoutQueueMember → List PayoutQueueMember → PayoutQueueMember → PayoutRecipientSelection
selection_of m skipped nominal = record {
  recipient = some m;
  skipped_defaulted = skipped;
  nominal_recipient = some nominal;
}

zero_or_suc : (n : ℕ) → (n ≡ 0) ⊎ ((j : ℕ) × (n ≡ suc j))
zero_or_suc zero = inl refl
zero_or_suc (suc j) = inr (j, refl)

wraps_to_zero : (n : ℕ) → (n + 1) % suc n ≡ 0
wraps_to_zero n = grind arith

module _ (q : List PayoutQueueMember) (base k : ℕ) (full : length q ≡ suc k) where
  stops_at_once :
      (nominal : Option PayoutQueueMember) (m : PayoutQueueMember)
      → get_elem? q ((base + 0) % length q) ≡ some m
      → is_defaulted m.cycle_standing ≡ false
      → scan q base nominal (length q) 0 []
        ≡ ok (record { recipient = some m; skipped_defaulted = []; nominal_recipient = nominal })
  stops_at_once nominal m e eligible =
      subst
        (λ n.
          scan q base nominal n 0 []
          ≡ ok (record { recipient = some m; skipped_defaulted = []; nominal_recipient = nominal }))
        (sym full) (scan-stop q base nominal k 0 [] m e eligible)

  stops_at_second :
      (nominal : Option PayoutQueueMember) (d m : PayoutQueueMember) (j : ℕ)
      → k ≡ suc j
      → get_elem? q ((base + 0) % length q) ≡ some d
      → is_defaulted d.cycle_standing ≡ true
      → get_elem? q ((base + 1) % length q) ≡ some m
      → is_defaulted m.cycle_standing ≡ false
      → scan q base nominal (length q) 0 []
        ≡ ok
            (record { recipient = some m; skipped_defaulted = d ∷ []; nominal_recipient = nominal })
  stops_at_second nominal d m j two e gone f eligible =
      subst
        (λ n.
          scan q base nominal n 0 []
          ≡ ok (record {
            recipient = some m;
            skipped_defaulted = d ∷ [];
            nominal_recipient = nominal;
          }))
        (sym (full ∙ ap suc two))
        (scan-skip q base nominal (suc j) 0 [] d e gone
          ∙ scan-stop q base nominal j 1 (d ∷ []) m f eligible)

module _ (first : PayoutQueueMember) (rest : List PayoutQueueMember) where
  nominal-selected :
      (c : ℕ) (m : PayoutQueueMember)
      → get_elem? (queue first rest c) (nominal_place (queue first rest c) c) ≡ some m
      → is_defaulted m.cycle_standing ≡ false
      → select_payout_recipient (first ∷ rest) (suc c) false ≡ ok (selection_of m [] m)
  nominal-selected c m e eligible =
      let q = queue first rest c in
      let base = nominal_place q c in
      let len : length q ≡ suc (length rest) = length-sort_members (first ∷ rest) in
      let there : get_elem? q ((base + 0) % length q) ≡ some m =
        rw (add-zero, mod-eq_of_lt {n = c % length q} {m = length q} (omega arith)) e in
      select_payout_recipient-scan first rest c
      ∙ stops_at_once q base (length rest) len (get_elem? q base) m there eligible
      ∙ ap (λ n. ok (record { recipient = some m; skipped_defaulted = []; nominal_recipient = n }))
          e

  -- While nobody is DEFAULTED, cycle `c + 1` of a group pays the member at place `c` of the sorted
  -- queue: over as many cycles as there are members, everyone is paid once.
  pub select_payout_recipient-rotates :
      (c : ℕ)
      → c < suc (length rest)
      → All (λ m. is_defaulted m.cycle_standing ≡ false) (first ∷ rest)
      → (m : PayoutQueueMember) × (get_elem? (sort_members (first ∷ rest)) c ≡ some m)
        × (select_payout_recipient (first ∷ rest) (suc c) false ≡ ok (selection_of m [] m))
  select_payout_recipient-rotates c lt nobody =
      let q = queue first rest c in
      let len : length q ≡ suc (length rest) = length-sort_members (first ∷ rest) in
      let lt_q : c < length q = omega arith in
      let (m, e) = get_elem?-some q c lt_q in
      let eligible =
        get-All _ q c m
          ((All-sort_members (λ x. is_defaulted x.cycle_standing ≡ false) (first ∷ rest)).1 nobody)
          e in
      (m, e, nominal-selected c m (rw (mod-eq_of_lt lt_q) e) eligible)

  -- If the member whose turn is last is DEFAULTED by then, the last cycle wraps round and pays the
  -- first member of the queue, whom the first cycle paid already.
  pub select_payout_recipient-repeats :
      (paid last : PayoutQueueMember)
      → get_elem? (sort_members (first ∷ rest)) 0 ≡ some paid
      → get_elem? (sort_members (first ∷ rest)) (length rest) ≡ some last
      → is_defaulted paid.cycle_standing ≡ false
      → is_defaulted last.cycle_standing ≡ true
      → (select_payout_recipient (first ∷ rest) 1 false ≡ ok (selection_of paid [] paid))
        × (select_payout_recipient (first ∷ rest) (suc (length rest)) false
            ≡ ok (selection_of paid (last ∷ []) last))
  select_payout_recipient-repeats paid last e f eligible gone = (
    nominal-selected 0 paid
        (rw (mod-eq_of_lt {n = 0} {m = length (queue first rest 0)} (queue-nonempty first rest 0))
          e)
        eligible,
    last_cycle,
  )
    where
      last_cycle :
          select_payout_recipient (first ∷ rest) (suc (length rest)) false
          ≡ ok (selection_of paid (last ∷ []) last)
      last_cycle =
          let q = queue first rest (length rest) in
          let len : length q ≡ suc (length rest) = length-sort_members (first ∷ rest) in
          let lt : length rest < length q = omega arith in
          let base : nominal_place q (length rest) ≡ length rest = mod-eq_of_lt lt in
          elim (zero_or_suc (length rest)) [
            | inl alone ↦ cc (e, rw alone at f, eligible, gone)
            | inr (j, more) ↦
                select_payout_recipient-scan first rest (length rest)
                ∙ stops_at_second q (nominal_place q (length rest)) (length rest) len
                    (get_elem? q (nominal_place q (length rest))) last paid j more
                    (rw (add-zero, base, mod-eq_of_lt lt) f) gone
                    (rw (base, len, wraps_to_zero (length rest)) e) eligible
                ∙ ap
                    (λ n. ok (record {
                      recipient = some paid;
                      skipped_defaulted = last ∷ [];
                      nominal_recipient = n;
                    }))
                    (rw base f)
          ]
