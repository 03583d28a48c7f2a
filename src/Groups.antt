-- ===== src/Groups.antt =====
-- services/backend-api/src/groups and group-members: who is in a group, and its start.
pub mod Membership
pub mod Activation
mod Tests
