-- ===== src/Server.antt =====
-- server/file_operations.go, server/crash.go and server/power.go: what a server does for its users.
pub mod Operations
pub mod Crash
pub mod Power
mod Examples
