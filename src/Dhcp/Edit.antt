-- ===== src/Dhcp/Edit.antt =====
-- The bodies of the configuration methods of pkg/dhcp/grpcservice/dhcphandler.go, between the deep
-- copy and the call of reconfig4 or reconfig6: an edit of the copy. Its result holds the copy
-- (`dst`), and the handler's own configuration (`src`) as the edit leaves it: a write to a pool, a
-- prefix pool or a reservation goes to an array that both share, and shows in both.
pub mod Subnets
pub mod Pools
pub mod Reservations
pub mod Classes
