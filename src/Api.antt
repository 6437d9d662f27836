-- ===== src/Api.antt =====
-- apps/frontend/src/lib/api.ts: the client of the control plane.
pub mod Sse
pub mod Client
