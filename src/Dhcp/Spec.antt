-- ===== src/Dhcp/Spec.antt =====
-- What the configuration methods of the DHCP agent are meant to do.
pub mod V4
pub mod V6
