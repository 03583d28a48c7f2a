-- ===== src/Reserve/Cover.antt =====
-- coverDefaultFromReserveInTx.
pub mod Cases
pub mod Effect
use myturn_webportal.Prelude.{
  ℕ, suc, ◌+◌, ◌-◌, Bool, true, false, Option, none, some, List, [], ◌∷◌, if◌then◌else◌, ◌==◌, leb,
  ltb, ◌&&◌, ◌||◌, not, find_first, min, Result, ok, err,
}
use myturn_webportal.Prelude.Int.{pos}
use myturn_webportal.Txn.{Tx, ◌>>=◌, ◌>>◌, return, modify, gets}
use myturn_webportal.Shared.ReserveRules.{missed_contribution_minor}
use myturn_webportal.Ledger.Account.{member_wallet_reserved, group_pool}
use myturn_webportal.Ledger.Moves.{move_between}
use myturn_webportal.Ledger.Posting.Journal.{IdempotencyKey, journal_beq, default_cover}
use myturn_webportal.Ledger.Posting.{Ledger, Posted}
use myturn_webportal.Store.Rows.{
  Reserve, ReserveStatus, DefaultCoverage, Contribution, ContributionStatus,
}
use myturn_webportal.Store.{Db, in_ledger, update_rows}
use myturn_webportal.Reserve.Split.{ReserveConfig}
use myturn_webportal.Reserve.Release.{find_active_reserve}

pub record CoverParams : Type 0 where
  pub user_id : ℕ
  pub group_id : ℕ
  pub contribution_id : ℕ

pub record Coverage : Type 0 where
  pub amount : ℕ
  pub fully_covered : Bool
  pub duplicate : Bool

-- `none` is `{ covered: false }`.
pub data CoverResult : Type 0 where
  not_covered : CoverResult
  covered : Coverage → CoverResult

unfoldable pub find_contribution : ℕ → List Contribution → Option Contribution
find_contribution id = find_first λ c. c.id == id

unfoldable pub find_coverage : IdempotencyKey → List DefaultCoverage → Option DefaultCoverage
find_coverage key = find_first λ c. journal_beq c.idempotency_key key

abbrev is_paid : ContributionStatus → Bool
is_paid ContributionStatus.paid = true
is_paid ContributionStatus.pending = false
is_paid ContributionStatus.late = false
is_paid ContributionStatus.waived = false

abbrev pub not_coverable : CoverParams → Contribution → Bool
not_coverable params c =
    not (c.user_id == params.user_id) || not (c.group_id == params.group_id) || is_paid c.status

abbrev pub missed : Contribution → ℕ
missed c = missed_contribution_minor c.amount c.expected_day_count c.paid_day_count

-- `missedMinor < remainingMinor ? missedMinor : remainingMinor`
abbrev pub cover_amount : Contribution → Reserve → ℕ
cover_amount c r =
    if ltb (missed c) r.remaining_reserve_amount then missed c else r.remaining_reserve_amount

abbrev pub cover_key : CoverParams → Reserve → IdempotencyKey
cover_key params r = default_cover r.id params.contribution_id

abbrev pub coverage_of : DefaultCoverage → CoverResult
coverage_of row = covered (record {
  amount = row.covered_amount;
  fully_covered = leb row.missed_amount row.covered_amount;
  duplicate = true;
})

abbrev pub coverage_or_none : Option DefaultCoverage → CoverResult
coverage_or_none none = not_covered
coverage_or_none (some row) = coverage_of row

abbrev pub after_cover : Contribution → Reserve → Reserve → Reserve
after_cover c r row = record row {
  remaining_reserve_amount = r.remaining_reserve_amount - cover_amount c r;
  used_for_default_amount = r.used_for_default_amount + cover_amount c r;
  status =
      if leb r.remaining_reserve_amount (cover_amount c r)
      then ReserveStatus.released
      else row.status;
}

new_coverage : CoverParams → Contribution → Reserve → DefaultCoverage
new_coverage params c r = record {
  user_id = params.user_id;
  group_id = params.group_id;
  contribution_id = params.contribution_id;
  reserve_id = r.id;
  covered_amount = cover_amount c r;
  missed_amount = missed c;
  idempotency_key = cover_key params r;
}

abbrev pub paid_in_full : Contribution → Contribution → Contribution
paid_in_full c row = record row {
  status = ContributionStatus.paid;
  paid_day_count = c.expected_day_count;
}

-- The contribution is PAID only if the whole of what was missed is covered.
abbrev pub settle_contribution :
    CoverParams → Contribution → Reserve → List Contribution → List Contribution
settle_contribution params c r rows =
    if leb (missed c) (cover_amount c r)
    then update_rows (λ x. x.id == params.contribution_id) (paid_in_full c) rows
    else rows

unfoldable pub record_cover : CoverParams → Contribution → Reserve → Db → Db
unfolding new_coverage
record_cover params c r db = record db {
  reserves = update_rows (λ x. x.id == r.id) (after_cover c r) db.reserves;
  coverages = new_coverage params c r ∷ db.coverages;
  contributions = settle_contribution params c r db.contributions;
}

abbrev pub new_cover : Contribution → Reserve → CoverResult
new_cover c r = covered (record {
  amount = cover_amount c r;
  fully_covered = leb (missed c) (cover_amount c r);
  duplicate = false;
})

-- A duplicate posting answers with the coverage row, if there is one.
unfoldable pub finish_cover : CoverParams → Contribution → Reserve → Bool → Tx Db CoverResult
unfolding record_cover
finish_cover params c r true db =
    ok (coverage_or_none (find_coverage (cover_key params r) db.coverages), db)
finish_cover params c r false db = ok (new_cover c r, record_cover params c r db)

abbrev pub cover_transfer : CoverParams → Contribution → Reserve → Ledger → Result (Posted × Ledger)
cover_transfer params c r =
    move_between (cover_key params r) (member_wallet_reserved params.user_id)
      (group_pool params.group_id) (pos (cover_amount c r))

unfoldable pub cover_from : CoverParams → Contribution → Reserve → Tx Db CoverResult
unfolding finish_cover
cover_from params c r = do
  transfer ← in_ledger (cover_transfer params c r)
  finish_cover params c r transfer.duplicate

cover_with : CoverParams → Contribution → Reserve → Option DefaultCoverage → Tx Db CoverResult
unfolding cover_from
cover_with params c r (some row) = return (coverage_of row)
cover_with params c r none =
    if leb r.remaining_reserve_amount 0 then return not_covered else cover_from params c r

unfoldable pub cover_reserve : CoverParams → Contribution → Option Reserve → Tx Db CoverResult
unfolding cover_with
cover_reserve params c none db = ok (not_covered, db)
cover_reserve params c (some r) db =
    cover_with params c r (find_coverage (cover_key params r) db.coverages) db

cover_contribution : CoverParams → Option Contribution → Tx Db CoverResult
unfolding cover_reserve
cover_contribution params none db = ok (not_covered, db)
cover_contribution params (some c) db =
    if not_coverable params c || leb (missed c) 0
    then ok (not_covered, db)
    else cover_reserve params c (find_active_reserve params.user_id params.group_id db.reserves) db

unfoldable pub cover_default_from_reserve_in_tx : ReserveConfig → CoverParams → Tx Db CoverResult
unfolding cover_contribution
cover_default_from_reserve_in_tx config params db =
    if config.enabled
    then cover_contribution params (find_contribution params.contribution_id db.contributions) db
    else ok (not_covered, db)
