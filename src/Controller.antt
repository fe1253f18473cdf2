-- ===== src/Controller.antt =====
-- The reconciler of LandlockProfile (internal/controller/landlockprofile_controller.go).
pub mod Client
pub mod Memory
pub mod Reconcile
pub mod Branches
pub mod Protection
pub mod Progress
pub mod Attempts
pub mod Requests
pub mod Options
pub mod Main
