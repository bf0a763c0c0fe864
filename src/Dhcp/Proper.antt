-- ===== src/Dhcp/Proper.antt =====
-- What the handler sends to Kea, over any run of messages.
pub mod Rules
mod Actions
mod Edits
pub mod Runs
