-- ===== src/Seal.antt =====
-- The `seal` binary (internal/seal and cmd/seal).
pub mod Access
pub mod Rules
pub mod Ldd
pub mod Env
pub mod Config
pub mod Logger
pub mod Flags
pub mod Cli
pub mod Main
