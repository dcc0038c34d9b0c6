-- ===== src/Dataplane.antt =====
-- The connections of the dataplanes: broker/route_broker_dp_ctrl.c, by which they ask for routes,
-- and the consumers of broker/route_broker_dp_data.c and broker/route_broker_kernel.c.
pub mod Message
pub mod Ctrl
pub mod Config
pub mod Sessions
pub mod Connect
pub mod Consumer
pub mod Shutdown
pub mod Thread
pub mod Ledger
pub mod Sockets
mod Tests
mod ThreadTests
