-- ===== src/RuntimeHealth.antt =====
-- The health of the connected services as seen by the requests made to them
-- (apps/sp-api/src/runtime-health): a row per service, cached in memory, degraded after two failures
-- in a row.
pub mod Records
pub mod Service
