-- ===== src/Ws.antt =====
-- web/src/lib/wsStore.ts: the WebSocket connection and its watch subscriptions, and
-- web/src/hooks/useSubscription.ts, which keeps one of these alive.
pub mod Watch
pub mod State
pub mod Connection
pub mod Notification
pub mod Subscribe
pub mod Lifecycle
mod Tests
