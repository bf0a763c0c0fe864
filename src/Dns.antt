-- ===== src/Dns.antt =====
-- The DNS side of the agent: pkg/dns.
pub mod Zone
pub mod Resource
pub mod Files
pub mod Database
pub mod World
pub mod Actions
pub mod Rules
pub mod Requests
pub mod ViewFile
pub mod Views
pub mod Forward
pub mod Redirections
pub mod Rrs
pub mod ZoneFiles
pub mod AuthZones
pub mod Options
pub mod Nginx
pub mod Start
pub mod Upload
pub mod Keeper
pub mod Methods
pub mod Consumer
pub mod Keys
pub mod Atomic
pub mod ViewShown
pub mod ViewMethods
pub mod ViewInit
pub mod OptionFile
pub mod UploadShown
pub mod Leftover
pub mod Messages
pub mod Reports
pub mod Kept
pub mod Unheard
pub mod ForwardSql
pub mod ZoneShown
pub mod Acl
pub mod AclFile
pub mod Addresses
pub mod Ports
mod Memory
mod Samples
mod AclTests
mod Tests
mod MoreTests
mod ZoneTests
