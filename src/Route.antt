-- ===== src/Route.antt =====
-- broker/route_broker.c: the three brokers, one for each priority, and the table that finds the
-- route of a topic. A route is known by its address, which stands for that of the `broker_obj`
-- in it as well (`container_of`). Each call is one step under `route_broker_mutex`.
pub mod Types
pub mod Client
pub mod Publish
pub mod Show
pub mod Setup
pub mod Table
pub mod Sound
pub mod Calls
pub mod Init
pub mod View
pub mod Drain
pub mod InitAll
mod Tests
pub mod Sync
mod SoundTests
mod SyncTests
