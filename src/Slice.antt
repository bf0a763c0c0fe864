-- ===== src/Slice.antt =====
-- Go slices, as pkg/dhcp/grpcservice/dhcphandler.go uses them.
mod Defs
pub mod Unique
unfoldable pub use Defs.*
