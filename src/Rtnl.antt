-- ===== src/Rtnl.antt =====
-- internal/backend/rtnl: the netlink backend. Order is `hostOrder` of rtnl.go, Wire the framing of
-- messages and attributes in wire.go, Links its decoding of link messages.
pub mod Order
pub mod Wire
pub mod Links
pub mod Requests
mod Tests
