-- ===== src/Netlink.antt =====
-- daemon/broker_process.c: netlink messages from the kernel and from the forwarding plane manager
-- become calls of `route_broker_publish`.
pub mod Dump
pub mod Rtnl
pub mod Walk
pub mod Stream
pub mod Receive
pub mod Published
mod Tests
