-- ===== src/Deps.antt =====
-- The third-party crates, and the parts of std, that the program calls, as interfaces: operations with
-- the laws that their documentation states. The development takes values of these records as
-- parameters.
pub mod DashMap
pub mod Provider
pub mod Gossip
pub mod Host
pub mod Encoding
pub mod Zkvm
pub mod LruCache
