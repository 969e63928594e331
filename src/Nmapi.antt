-- ===== src/Nmapi.antt =====
-- internal/nmapi: the manager and the objects that it keeps. State is the data of manager.go, device.go
-- and active.go, Types the enumerations of types.go.
pub mod Types
pub mod Variant
pub mod Profile
pub mod State
pub mod Device
pub mod Registry
pub mod Store
pub mod WireGuard
pub mod Activation
pub mod BringUp
pub mod Auto
pub mod Control
pub mod Complete
pub mod Access
pub mod Steps
mod Tests
