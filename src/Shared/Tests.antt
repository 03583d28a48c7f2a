-- ===== src/Shared/Tests.antt =====
-- Runs of the shared rules, and their theorems at them.
use myturn_webportal.Prelude.{
  ℕ, ◌+◌, ◌≡◌, ◌↔◌, refl, true, false, none, some, [], ◌∷◌, arith, ok, All, get_elem?, sum,
}
use myturn_webportal.Prelude.Int.{pos}
use myturn_webportal.Shared.Cycle.{CycleSummary, summarize_cycle}
use myturn_webportal.Shared.Cycle.Conservation.{summarize_cycle-conserves}
use myturn_webportal.Shared.ReserveRules.Releases.{releases, releases_complete}
use myturn_webportal.Shared.Queue.{
  PayoutQueueStanding, PayoutQueueMember, is_defaulted, sort_members, select_payout_recipient,
}
use myturn_webportal.Shared.Queue.Selection.{IsNoneOrEligible, select_payout_recipient-eligible}
use myturn_webportal.Shared.Queue.Rotation.{
  selection_of, select_payout_recipient-rotates, select_payout_recipient-repeats,
}

abbrev member : ℕ → PayoutQueueStanding → PayoutQueueMember
member n standing = record {
  user_id = n;
  turn_order = n;
  effective_payout_order = n;
  cycle_standing = standing;
}

abbrev ama : PayoutQueueMember
ama = member 1 PayoutQueueStanding.active

abbrev kofi : PayoutQueueMember
kofi = member 2 PayoutQueueStanding.late

abbrev esi : PayoutQueueMember
esi = member 3 PayoutQueueStanding.active

abbrev gone : PayoutQueueMember
gone = member 3 PayoutQueueStanding.defaulted

second_turn :
    select_payout_recipient (esi ∷ kofi ∷ ama ∷ []) 2 false ≡ ok (selection_of kofi [] kofi)
unfolding select_payout_recipient
second_turn = refl

overridden :
    select_payout_recipient (gone ∷ kofi ∷ ama ∷ []) 3 true ≡ ok (selection_of gone [] gone)
unfolding select_payout_recipient
overridden = refl

select_payout_recipient-rotates_example :
    (m : PayoutQueueMember) × (get_elem? (sort_members (esi ∷ kofi ∷ ama ∷ [])) 1 ≡ some m)
    × (select_payout_recipient (esi ∷ kofi ∷ ama ∷ []) 2 false ≡ ok (selection_of m [] m))
select_payout_recipient-rotates_example =
    select_payout_recipient-rotates esi (kofi ∷ ama ∷ []) 1 (omega arith) (refl, (refl, (refl, tt)))

select_payout_recipient-repeats_example :
    (select_payout_recipient (gone ∷ kofi ∷ ama ∷ []) 1 false ≡ ok (selection_of ama [] ama))
    × (select_payout_recipient (gone ∷ kofi ∷ ama ∷ []) 3 false
        ≡ ok (selection_of ama (gone ∷ []) gone))
unfolding sort_members
select_payout_recipient-repeats_example =
    select_payout_recipient-repeats gone (kofi ∷ ama ∷ []) ama gone refl refl refl refl

select_payout_recipient-eligible_example :
    ((some ama ≡ none) ↔ All (λ m. is_defaulted m.cycle_standing ≡ true) (gone ∷ kofi ∷ ama ∷ []))
    × (IsNoneOrEligible (some ama))
unfolding select_payout_recipient
select_payout_recipient-eligible_example =
    select_payout_recipient-eligible gone (kofi ∷ ama ∷ []) 2 (selection_of ama (gone ∷ []) gone)
      refl

-- Five members pay 50.00 on each of 7 days, with a margin of 10%.
abbrev week : CycleSummary
week = record {
  cycle_number = 1;
  gross_pool_amount_minor = 175000;
  service_margin_minor = 17500;
  net_after_margin_minor = 157500;
  admin_share_minor = 0;
  platform_share_minor = 17500;
}

summarize_cycle-conserves_example :
    (week.net_after_margin_minor + week.service_margin_minor ≡ week.gross_pool_amount_minor)
    × (week.platform_share_minor ≡ week.service_margin_minor)
    × (week.admin_share_minor ≡ 0)
unfolding summarize_cycle
summarize_cycle-conserves_example =
    summarize_cycle-conserves 1 (pos 5000) (pos 5) (pos 1000) (pos 7) refl

releases_complete_example : sum (releases 1000 3 3 1000 0) ≡ 1000
releases_complete_example = releases_complete 1000 3 (omega arith)
