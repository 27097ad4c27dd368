-- ===== src/Permissions.antt =====
-- packages/core/src/permissions/policy.ts: the decisions on patches, commands, tools and test runs.
pub mod Policy
pub mod Patching
pub mod Running
pub mod Commands
pub mod Declared
pub mod Patches
mod Tests
