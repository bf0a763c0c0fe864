-- ===== src/Dhcp.antt =====
-- The DHCP agent: pkg/dhcp.
pub mod Config
pub mod Request
pub mod Proxy
pub mod Handler
pub mod Change
pub mod Edit
pub mod Address
pub mod Order
pub mod Leases
pub mod LeaseQueries
pub mod LeaseCounts
pub mod StrSlice
pub mod Startup
pub mod Monitor
pub mod Interfaces
pub mod Files
pub mod Boot
pub mod Started
pub mod Quiet
pub mod Service
pub mod Consumer
pub mod Responses
pub mod Kea
pub mod Sync
pub mod Methods
pub mod Outcome
pub mod Calls
pub mod Spec
pub mod Refine
pub mod Failure
pub mod Sharing
pub mod Serve
pub mod Keys
pub mod Messages
pub mod Reports
pub mod Proper
mod Tests
mod Samples
mod RunTests
mod StartTests
mod LeaseTests
