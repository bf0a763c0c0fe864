-- ===== src/Dhcp/Refine.antt =====
-- The configuration methods of the DHCP agent do what Dhcp/Spec says.
mod Found
pub mod V4
pub mod V6
pub mod Calls
