-- ===== src/Allocation/Finalization/Frame.antt =====
-- An allocation changes balances and reserves only.
use myturn_webportal.Prelude.{none, arith, leb, Bool-cases, inl, inr}
use myturn_webportal.Txn.{lift}
use myturn_webportal.Ledger.Account.{
  member_wallet_available, member_wallet_reserved, group_pool, myturn_revenue,
}
use myturn_webportal.Ledger.Posting.Journal.{cycle_finalize}
use myturn_webportal.Shared.Cycle.{CycleSummary}
use myturn_webportal.Store.Frames.{
  IsFramed, >>=-IsFramed, in_ledger-IsFramed, return-IsFramed, Keeps-rows, lift-IsFramed,
}
use myturn_webportal.Ledger.Conserved.{
  Conserves-trans, get_or_create_4-Conserves, IsConserving, post_journal-IsConserving,
}
use myturn_webportal.Store.{in_ledger}
use myturn_webportal.Reserve.Split.Migration.{legacy_wallet-IsConserving}
use myturn_webportal.Reserve.Split.{
  ReserveConfig, ReserveSplitResult, ReserveParams, insert_reserve,
  ensure_legacy_wallet_migrated_in_tx, create_reserve_on_payout_in_tx,
}
use myturn_webportal.Allocation.Finalization.{
  FinalizationParams, summary_for, split_for, allocate, allocation_opened, allocation_lines,
  allocate_cycle_finalization_in_tx,
}

insert_reserve-IsFramed : (params : ReserveParams) → IsFramed (insert_reserve params)
unfolding insert_reserve
insert_reserve-IsFramed params db a db' h = elim (Bool-cases (leb params.split.reserve_minor 0)) [
  | inl nothing ↦ return-IsFramed none db a db' (rw nothing at h)
  | inr some_held ↦
      let h₁ = rw some_held at h in
      Keeps-rows db db' (ground arith) (ground arith) (ground arith) (ground arith)
]

create_reserve-IsFramed :
    (params : ReserveParams) → IsFramed (create_reserve_on_payout_in_tx params)
unfolding create_reserve_on_payout_in_tx
create_reserve-IsFramed params =
    >>=-IsFramed (in_ledger (ensure_legacy_wallet_migrated_in_tx params.user_id))
      (λ _. insert_reserve params)
      (in_ledger-IsFramed _ (legacy_wallet-IsConserving params.user_id))
      (λ _. insert_reserve-IsFramed params)

allocate-IsConserving :
    (params : FinalizationParams) (summary : CycleSummary) (split : ReserveSplitResult)
    → IsConserving (allocate params summary split)
allocate-IsConserving params summary split l p l' h =
    Conserves-trans l (allocation_opened params l) l'
      (get_or_create_4-Conserves (group_pool params.group_id)
        (member_wallet_available params.recipient_user_id)
        (member_wallet_reserved params.recipient_user_id) myturn_revenue l)
      (post_journal-IsConserving (cycle_finalize params.payout_id)
        (allocation_lines params summary split) (allocation_opened params l) p l' h)

pub allocate-IsFramed :
    (config : ReserveConfig) (params : FinalizationParams)
    → IsFramed (allocate_cycle_finalization_in_tx config params)
unfolding allocate_cycle_finalization_in_tx
allocate-IsFramed config params =
    >>=-IsFramed (lift (summary_for params)) _ (lift-IsFramed (summary_for params)) (λ summary.
      >>=-IsFramed (lift (split_for config params summary)) _
        (lift-IsFramed (split_for config params summary))
        (λ split.
          >>=-IsFramed (in_ledger (ensure_legacy_wallet_migrated_in_tx params.recipient_user_id)) _
            (in_ledger-IsFramed _ (legacy_wallet-IsConserving params.recipient_user_id))
            (λ _.
              >>=-IsFramed (in_ledger (allocate params summary split)) _
                (in_ledger-IsFramed _ (allocate-IsConserving params summary split))
                (λ _.
                  >>=-IsFramed (create_reserve_on_payout_in_tx _) _ (create_reserve-IsFramed _)
                    (λ id. return-IsFramed _)))))
