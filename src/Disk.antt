-- ===== src/Disk.antt =====
-- Disk usage accounting: internal/ufs/fs_quota.go, server/filesystem/disk_space.go and
-- server/filesystem/quota_file.go.
pub mod Quota
pub mod Space
pub mod File
mod Examples
