-- ===== src/Routing.antt =====
-- src/utils/routing.ts: the hosts that the proxy may call, the parts of a dynamic URL, and the URLs of
-- upstream calls.
pub mod Host
pub mod Dynamic
