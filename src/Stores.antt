-- ===== src/Stores.antt =====
-- The lists that the client keeps in step with the server: web/src/lib/sessionStore.ts,
-- web/src/lib/workStore.ts, web/src/lib/agentRoleStore.ts and the hooks that subscribe to them.
pub mod Collection
pub mod Items
pub mod Sessions
pub mod Works
pub mod Refinement
mod Tests
