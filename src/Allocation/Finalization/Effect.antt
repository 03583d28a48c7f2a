-- ===== src/Allocation/Finalization/Effect.antt =====
-- The writes of an allocation that returns, one after the other.
use myturn_webportal.Prelude.{
  ◌≡◌, ◌≢◌, refl, sym, ap, ◌∙◌, inl, inr, true, false, none, [], leb, ok, Bool-cases,
}
use myturn_webportal.Prelude.Int.{ℤ, pos, ◌+ℤ◌, ◌≤ℤ◌, neg, int_laws}
use myturn_webportal.Dict.{lookup}
use myturn_webportal.Shared.Cycle.{CycleSummary}
use myturn_webportal.Ledger.Account.{
  AccountKey, key_eq, key_beq, key_beq_iff, group_pool, myturn_revenue, member_wallet_available,
  member_wallet_reserved,
}
use myturn_webportal.Ledger.Accounts.{
  balance_or_zero, get_balance, get_or_create-lookup, get_or_create-balance,
  get_or_create-transactions,
}
use myturn_webportal.Ledger.Moves.{balance-moved, some_is_there}
use myturn_webportal.Ledger.Posting.Cases.{Fresh, post_journal-cases}
use myturn_webportal.Ledger.Posting.Effect.{delta_on, post_journal-lookup}
use myturn_webportal.Ledger.Posting.Journal.{cycle_finalize}
use myturn_webportal.Ledger.Posting.Solvency.{check_lines-cons, assert-cases, check_found-cases}
use myturn_webportal.Ledger.Posting.{Ledger, Posted, PostingLine, find_transaction}
use myturn_webportal.Reserve.Split.{ReserveSplitResult}
use myturn_webportal.Allocation.Finalization.{
  FinalizationParams, allocation_lines, allocation_opened, allocate,
}

module _ (params : FinalizationParams) (summary : CycleSummary) (split : ReserveSplitResult)
    (l : Ledger) where
  opened_balance : (k : AccountKey) → get_balance k (allocation_opened params l) ≡ get_balance k l
  opened_balance k =
      get_or_create-balance myturn_revenue k _
      ∙ get_or_create-balance (member_wallet_reserved params.recipient_user_id) k _
      ∙ get_or_create-balance (member_wallet_available params.recipient_user_id) k _
      ∙ get_or_create-balance (group_pool params.group_id) k l

  delta_on_pool :
      delta_on (group_pool params.group_id) (allocation_lines params summary split)
      ≡ neg (pos summary.gross_pool_amount_minor)
  unfolding allocation_lines
  delta_on_pool =
      let mine : key_beq (group_pool params.group_id) (group_pool params.group_id) ≡ true =
        (key_beq_iff (group_pool params.group_id) (group_pool params.group_id)).1 refl in
      rw mine (elim (Bool-cases (leb split.reserve_minor 0)) [
        | inl nothing ↦ rw nothing (omega int_laws)
        | inr held ↦ rw held (omega int_laws)
      ])

  delta_on_revenue :
      delta_on myturn_revenue (allocation_lines params summary split)
      ≡ pos summary.platform_share_minor
  unfolding allocation_lines
  delta_on_revenue = elim (Bool-cases (leb split.reserve_minor 0)) [
    | inl nothing ↦ rw nothing (omega int_laws)
    | inr held ↦ rw held (omega int_laws)
  ]

  abbrev pool_line : PostingLine
  pool_line = record {
    account = group_pool params.group_id;
    delta = neg (pos summary.gross_pool_amount_minor);
  }

  pool_holds :
      {p : Posted} {after : Ledger}
      → Fresh
          (cycle_finalize params.payout_id)
          (allocation_lines params summary split)
          (allocation_opened params l)
          after
          p
      → (pos summary.gross_pool_amount_minor ≤ℤ get_balance (group_pool params.group_id) l)
        × (lookup (group_pool params.group_id) (allocation_opened params l).accounts ≢ none)
  unfolding allocation_lines get_balance lookup
  pool_holds fresh =
      let (next, first, _) =
        check_lines-cons (allocation_opened params l).accounts pool_line _ [] fresh.checked in
      let (b, found, checked) =
        assert-cases (allocation_opened params l).accounts pool_line [] first in
      let same : b ≡ get_balance (group_pool params.group_id) l =
        sym (ap balance_or_zero found) ∙ opened_balance (group_pool params.group_id) in
      (
        elim (check_found-cases pool_line b [] checked) [
          | inl (external, _) ↦ cc external
          | inr (_, enough, _) ↦ rw (← same) (omega (int_laws, enough))
        ],
        some_is_there found,
      )

  opened_log :
      find_transaction (cycle_finalize params.payout_id) (allocation_opened params l).transactions
      ≡ find_transaction (cycle_finalize params.payout_id) l.transactions
  opened_log = ap (find_transaction (cycle_finalize params.payout_id)) (
      get_or_create-transactions myturn_revenue _
      ∙ get_or_create-transactions (member_wallet_reserved params.recipient_user_id) _
      ∙ get_or_create-transactions (member_wallet_available params.recipient_user_id) _
      ∙ get_or_create-transactions (group_pool params.group_id) l)

  revenue_open : lookup myturn_revenue (allocation_opened params l).accounts ≢ none
  revenue_open = some_is_there (get_or_create-lookup myturn_revenue myturn_revenue _)

  after_delta :
      (k : AccountKey) (d : ℤ) {p : Posted} {after : Ledger}
      → delta_on k (allocation_lines params summary split) ≡ d
      → lookup k (allocation_opened params l).accounts ≢ none
      → p.duplicate ≡ false
      → allocate params summary split l ≡ ok (p, after)
      → get_balance k after ≡ get_balance k l +ℤ d
  unfolding get_balance
  after_delta k d {p} {after} is_d there new h =
      let found =
        rw (new, is_d) at
          (post_journal-lookup (cycle_finalize params.payout_id)
            (allocation_lines params summary split) (allocation_opened params l) h k) in
      ap balance_or_zero found
      ∙ balance-moved d (lookup k (allocation_opened params l).accounts) (inl there)
      ∙ ap (λ b. b +ℤ d) (opened_balance k)

  pub allocate-ok :
      {p : Posted} {after : Ledger}
      → find_transaction (cycle_finalize params.payout_id) l.transactions ≡ none
      → allocate params summary split l ≡ ok (p, after)
      → (pos summary.gross_pool_amount_minor ≤ℤ get_balance (group_pool params.group_id) l)
        × (get_balance (group_pool params.group_id) after
            ≡ get_balance (group_pool params.group_id) l
              +ℤ neg (pos summary.gross_pool_amount_minor))
        × (get_balance myturn_revenue after
            ≡ get_balance myturn_revenue l +ℤ pos summary.platform_share_minor)
  allocate-ok {p} {after} unused h =
      elim (post_journal-cases (cycle_finalize params.payout_id)
        (allocation_lines params summary split) (allocation_opened params l) h) [
          | inr old ↦ cc (old.found, opened_log ∙ unused)
          | inl fresh ↦
              let (enough, there) = pool_holds fresh in
              (
                enough,
                after_delta (group_pool params.group_id) _ delta_on_pool there fresh.is_new h,
                after_delta myturn_revenue _ delta_on_revenue revenue_open fresh.is_new h,
              )
        ]
