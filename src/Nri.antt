-- ===== src/Nri.antt =====
-- The NRI plugin (internal/nri, and the copying of binaries in cmd/nri/plugin_mode.go).
pub mod Paths
pub mod HostFs
pub mod Shared
pub mod Memory
pub mod Filesystem
pub mod Adjustments
pub mod Plugin
pub mod Node
pub mod Main
