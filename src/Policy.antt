-- ===== src/Policy.antt =====
-- internal/networkpolicy: the allocation-bound network policy of a server.
pub mod Types
pub mod Bandwidth
pub mod Order
pub mod Net
pub mod Names
pub mod Select
pub mod Static
pub mod Assigned
mod Examples
