-- ===== src/Withdrawals/Disburse/Refund.antt =====
-- A transfer that the provider has accepted, and a notice about it that cannot be stored.
