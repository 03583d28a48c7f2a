-- ===== src/Reserve/Release/Shortfall.antt =====
-- A reserve that a default has used up to less than one unit's share: the release that is due is of
-- more than remains.
use myturn_webportal.Store.Rows.{Reserve}
