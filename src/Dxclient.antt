-- ===== src/Dxclient.antt =====
-- Package dxclient: the client of the dxLink protocol.
pub mod Message
pub mod Client
pub mod Handlers
pub mod Transport
pub mod Dispatch
pub mod Event
