-- ===== src/Guest.antt =====
-- What is sent to a macOS guest and read from it: pkg/resourcemanager/macos_stats.go and macos_exec.go,
-- internal/utils/cmd.go and internal/ssh/macos.go.
pub mod Stats
pub mod Shell
pub mod Sessions
pub mod Exec
mod Examples
