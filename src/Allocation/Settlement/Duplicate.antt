-- ===== src/Allocation/Settlement/Duplicate.antt =====
-- A payment whose reference is known already.
use myturn_webportal.Store.{Db, update_rows}
use myturn_webportal.Allocation.Settlement.{ContributionSettlementContext, is_next_day, day_paid}

abbrev counted : ContributionSettlementContext → Db → Db
counted ctx db = record db {
  contributions = update_rows (is_next_day ctx) (day_paid ctx) db.contributions;
}
