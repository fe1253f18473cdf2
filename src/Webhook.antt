-- ===== src/Webhook.antt =====
-- The admission webhook of LandlockProfile (internal/webhook/v1alpha1): the checks of paths.go and
-- the validator and defaulter of landlockprofile_webhook.go. Log lines are not modelled.
pub mod Errors
pub mod Paths
pub mod Valid
pub mod Validator
pub mod Accepts
pub mod Defaulter
