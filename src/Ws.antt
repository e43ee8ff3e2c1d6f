-- ===== src/Ws.antt =====
-- apps/bridge/src/ws: the requests that a browser sends over its WebSocket.
pub mod Message
pub mod Dispatch
pub mod Server
