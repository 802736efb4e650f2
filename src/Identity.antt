-- ===== src/Identity.antt =====
-- apps/server/src/identity.ts: principals, grants and their revocation.
pub mod Cascade
pub mod Grants
pub mod Lineage
