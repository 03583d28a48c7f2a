-- ===== src/Allocation/Settlement.antt =====
-- recordContributionSettlement. The notice of a release is sent after the commit and left out.
pub mod Duplicate
pub mod Total
pub mod Payments
use myturn_webportal.Prelude.{
  ℕ, suc, ◌+◌, Bool, true, false, Option, none, some, List, [], ◌∷◌, if◌then◌else◌, ◌==◌, leb, ◌&&◌,
  not, find_first, filter_by, length, Result, ok, err, Error, contribution_not_found,
  payment_already_recorded, unique_violation,
}
use myturn_webportal.Prelude.Int.{ℤ, pos, neg}
use myturn_webportal.Txn.{Tx, ◌>>=◌, ◌>>◌, return, modify, gets, throw_if, or_throw}
use myturn_webportal.Ledger.Account.{AccountKey, system_external, platform_float, group_pool}
use myturn_webportal.Ledger.Accounts.{get_or_create}
use myturn_webportal.Ledger.Posting.Journal.{IdempotencyKey, request_inflow, contribution_inflow}
use myturn_webportal.Ledger.Posting.{Ledger, Posted, PostingLine, post_journal_in_tx}
use myturn_webportal.Store.Rows.{
  Contribution, ContributionStatus, Payment, ExternalRef, given, paid_day, mock_at, same_ref,
}
use myturn_webportal.Store.{Db, in_ledger, update_rows}
use myturn_webportal.Reserve.Split.{ReserveConfig}
use myturn_webportal.Reserve.Release.{
  ReleaseParams, ReleaseResult, not_released, try_release_on_payment_settled_in_tx,
}
use myturn_webportal.Reserve.Cover.{find_contribution}

pub record ContributionSettlementContext : Type 0 where
  pub contribution_id : ℕ
  pub amount : ℕ
  pub paid_day_index : ℕ
  pub expected_day_count : ℕ
  -- `none` if it is absent or blank
  pub external_ref : Option ℕ
  pub payment_request_id : Option ℕ
  pub mock : Bool
  -- `Date.now()`
  pub now : ℕ

pub record SettlementResult : Type 0 where
  pub payment : Payment
  pub duplicate : Bool
  pub reserve_release : ReleaseResult

abbrev is_paid : ContributionStatus → Bool
is_paid ContributionStatus.paid = true
is_paid ContributionStatus.pending = false
is_paid ContributionStatus.late = false
is_paid ContributionStatus.waived = false

-- The `where` of the update: `paidDayCount` is `paidDayIndex - 1`.
abbrev pub is_next_day : ContributionSettlementContext → Contribution → Bool
is_next_day ctx c =
    c.id == ctx.contribution_id
    && not (is_paid c.status)
    && c.paid_day_count + 1 == ctx.paid_day_index

abbrev pub day_paid : ContributionSettlementContext → Contribution → Contribution
day_paid ctx c = record c {
  paid_day_count = ctx.paid_day_index;
  status =
      if leb ctx.expected_day_count ctx.paid_day_index
      then ContributionStatus.paid
      else ContributionStatus.pending;
}

-- `updated.count !== 1`
unfoldable pub advance_day : ContributionSettlementContext → Tx Db (Unit {0})
advance_day ctx db =
    if length (filter_by (is_next_day ctx) db.contributions) == 1
    then ok (
      tt,
      record db { contributions = update_rows (is_next_day ctx) (day_paid ctx) db.contributions },
    )
    else err payment_already_recorded

inflow_key_of : ContributionSettlementContext → Option ℕ → IdempotencyKey
inflow_key_of ctx none = contribution_inflow ctx.contribution_id ctx.paid_day_index
inflow_key_of ctx (some request) = request_inflow request ctx.paid_day_index

unfoldable pub inflow_key : ContributionSettlementContext → IdempotencyKey
unfolding inflow_key_of
inflow_key ctx = inflow_key_of ctx ctx.payment_request_id

made_ref : ContributionSettlementContext → Option ℕ → ExternalRef
made_ref ctx (some r) = given r
made_ref ctx none =
    if ctx.mock then mock_at ctx.now else paid_day ctx.contribution_id ctx.paid_day_index

unfoldable pub external_ref_of : ContributionSettlementContext → ExternalRef
unfolding made_ref
external_ref_of ctx = made_ref ctx ctx.external_ref

unfoldable pub find_payment : ExternalRef → List Payment → Option Payment
find_payment ref = find_first λ p. same_ref p.external_ref ref

-- Only a reference that came with the call is looked for.
abbrev pub find_duplicate : Option ℕ → List Payment → Option Payment
find_duplicate none payments = none
find_duplicate (some r) payments = find_payment (given r) payments

abbrev is_some : Option Payment → Bool
is_some none = false
is_some (some _) = true

abbrev pub new_payment : ContributionSettlementContext → Contribution → ℕ → Payment
new_payment ctx c id = record {
  id = id;
  user_id = c.user_id;
  group_id = c.group_id;
  amount = ctx.amount;
  external_ref = external_ref_of ctx;
}

abbrev pub inflow_lines : ContributionSettlementContext → Contribution → List PostingLine
inflow_lines ctx c =
    record { account = system_external; delta = neg (pos ctx.amount) }
    ∷ record { account = platform_float; delta = pos ctx.amount }
    ∷ record { account = platform_float; delta = neg (pos ctx.amount) }
    ∷ record { account = group_pool c.group_id; delta = pos ctx.amount }
    ∷ []

abbrev pub inflow_opened : Contribution → Ledger → Ledger
inflow_opened c l =
    get_or_create (group_pool c.group_id)
      (get_or_create platform_float (get_or_create system_external l))

abbrev pub collect :
    ContributionSettlementContext → Contribution → Ledger → Result (Posted × Ledger)
collect ctx c l = post_journal_in_tx (inflow_key ctx) (inflow_lines ctx c) (inflow_opened c l)

-- `externalRef` is unique in the table.
unfoldable pub create_payment : Payment → Tx Db (Unit {0})
create_payment p db =
    if is_some (find_payment p.external_ref db.payments)
    then err unique_violation
    else ok (tt, record db { payments = p ∷ db.payments; next_id = suc db.next_id })

unfoldable pub settle_payment :
    ReserveConfig → ContributionSettlementContext → Contribution → Payment → Tx Db SettlementResult
unfolding create_payment
settle_payment config ctx c payment = do
  create_payment payment
  _ ← in_ledger (collect ctx c)
  release ← try_release_on_payment_settled_in_tx config (record {
    user_id = c.user_id;
    group_id = c.group_id;
    payment_id = payment.id;
    cycle_number = c.cycle_number;
  })
  return (record { payment = payment; duplicate = false; reserve_release = release })

-- A known reference ends the transaction without an error, after the day was counted.
unfoldable pub unless_duplicate :
    ReserveConfig
    → ContributionSettlementContext
    → Contribution
    → Option Payment
    → Tx Db SettlementResult
unfolding settle_payment
unless_duplicate config ctx c (some p) db =
    ok (record { payment = p; duplicate = true; reserve_release = not_released }, db)
unless_duplicate config ctx c none db =
    settle_payment config ctx c (new_payment ctx c db.next_id) db

unfoldable pub settle_in_tx :
    ReserveConfig → ContributionSettlementContext → Contribution → Tx Db SettlementResult
unfolding advance_day unless_duplicate
settle_in_tx config ctx c = do
  advance_day ctx
  duplicate ← gets (λ db. find_duplicate ctx.external_ref db.payments)
  unless_duplicate config ctx c duplicate

-- The contribution is read before the transaction.
unfoldable pub record_contribution_settlement :
    ReserveConfig → ContributionSettlementContext → Tx Db SettlementResult
unfolding settle_in_tx
record_contribution_settlement config ctx db =
    (or_throw (find_contribution ctx.contribution_id db.contributions) contribution_not_found
        >>= settle_in_tx config ctx)
      db
