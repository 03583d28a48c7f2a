-- ===== src/Allocation/Finalization.antt =====
-- allocateCycleFinalizationInTx.
pub mod Effect
pub mod Lines
pub mod Frame
pub mod Pool
use myturn_webportal.Prelude.{
  ℕ, Bool, true, false, Option, none, some, List, [], ◌∷◌, ◌++◌, if◌then◌else◌, leb, Result, ok,
  err,
}
use myturn_webportal.Prelude.Int.{ℤ, pos, neg}
use myturn_webportal.Txn.{Tx, ◌>>=◌, ◌>>◌, return, modify, lift}
use myturn_webportal.Shared.Cycle.{CycleSummary, summarize_cycle}
use myturn_webportal.Ledger.Account.{
  AccountKey, group_pool, member_wallet_available, member_wallet_reserved, myturn_revenue,
}
use myturn_webportal.Ledger.Accounts.{get_or_create}
use myturn_webportal.Ledger.Posting.Journal.{cycle_finalize}
use myturn_webportal.Ledger.Posting.{Ledger, Posted, PostingLine, post_journal_in_tx}
use myturn_webportal.Store.{Db, in_ledger}
use myturn_webportal.Reserve.Split.{
  ReserveConfig, ReserveParams, ReserveSplitResult, compute_split,
  ensure_legacy_wallet_migrated_in_tx, create_reserve_on_payout_in_tx,
}

pub record FinalizationParams : Type 0 where
  pub group_id : ℕ
  pub cycle_number : ℕ
  pub payout_id : ℕ
  pub recipient_user_id : ℕ
  pub contribution_per_day : ℕ
  pub member_count : ℕ
  pub service_margin_bps : ℕ
  pub days_per_cycle : ℕ
  pub payout_position : ℕ
  pub total_positions : ℕ

pub record Allocation : Type 0 where
  pub summary : CycleSummary
  pub split : ReserveSplitResult
  pub reserve_record_id : Option ℕ

-- The line of the reserve comes last, if there is one.
abbrev reserve_lines : ℕ → ℕ → List PostingLine
reserve_lines recipient reserve =
    if leb reserve 0
    then []
    else record { account = member_wallet_reserved recipient; delta = pos reserve } ∷ []

unfoldable pub allocation_lines :
    FinalizationParams → CycleSummary → ReserveSplitResult → List PostingLine
allocation_lines params summary split =
    record {
      account = group_pool params.group_id;
      delta = neg (pos summary.gross_pool_amount_minor);
    }
    ∷ record {
      account = member_wallet_available params.recipient_user_id;
      delta = split.available_minor;
    }
    ∷ record { account = myturn_revenue; delta = pos summary.platform_share_minor }
    ∷ reserve_lines params.recipient_user_id split.reserve_minor

abbrev pub allocation_opened : FinalizationParams → Ledger → Ledger
allocation_opened params l = get_or_create myturn_revenue (
    get_or_create (member_wallet_reserved params.recipient_user_id) (
      get_or_create (member_wallet_available params.recipient_user_id)
        (get_or_create (group_pool params.group_id) l)))

abbrev pub allocate :
    FinalizationParams → CycleSummary → ReserveSplitResult → Ledger → Result (Posted × Ledger)
allocate params summary split l =
    post_journal_in_tx (cycle_finalize params.payout_id) (allocation_lines params summary split)
      (allocation_opened params l)

unfoldable pub summary_for : FinalizationParams → Result CycleSummary
summary_for params =
    summarize_cycle params.cycle_number (pos params.contribution_per_day) (pos params.member_count)
      (pos params.service_margin_bps) (pos params.days_per_cycle)

unfoldable pub split_for :
    ReserveConfig → FinalizationParams → CycleSummary → Result ReserveSplitResult
split_for config params summary =
    compute_split config summary.net_after_margin_minor params.payout_position
      params.total_positions params.days_per_cycle

abbrev pub reserve_for : FinalizationParams → ReserveSplitResult → ReserveParams
reserve_for params split = record {
  user_id = params.recipient_user_id;
  group_id = params.group_id;
  payout_id = params.payout_id;
  cycle_number = params.cycle_number;
  payout_position = params.payout_position;
  split = split;
}

unfoldable pub allocate_cycle_finalization_in_tx :
    ReserveConfig → FinalizationParams → Tx Db Allocation
unfolding summary_for split_for
allocate_cycle_finalization_in_tx config params = do
  summary ← lift (summary_for params)
  split ← lift (split_for config params summary)
  in_ledger (ensure_legacy_wallet_migrated_in_tx params.recipient_user_id)
  _ ← in_ledger (allocate params summary split)
  reserve_record_id ← create_reserve_on_payout_in_tx (reserve_for params split)
  return (record { summary = summary; split = split; reserve_record_id = reserve_record_id })
