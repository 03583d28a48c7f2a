-- ===== src/Shared.antt =====
-- packages/shared/src: the rules of money that the services and the apps have in common.
pub mod Margin
pub mod Cycle
pub mod ReserveRules
pub mod Queue
mod Tests
