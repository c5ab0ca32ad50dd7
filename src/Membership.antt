-- ===== src/Membership.antt =====
-- Profiles and their members: src/services/profile-membership-service.ts, with the triggers of
-- drizzle/20260723162013_f2_profile_ownership_invariant/migration.sql.
pub mod Schema
pub mod Failures
pub mod Triggers
pub mod Service
pub mod Guarded
pub mod Kept
pub mod Changes
pub mod Rows
pub mod Creating
pub mod Lifecycle
mod Examples
