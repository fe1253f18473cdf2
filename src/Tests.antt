-- ===== src/Tests.antt =====
-- Runs of the definitions, and the theorems at concrete inputs, one module for each component.
mod Data
mod Webhook
mod Nri
mod Plugin
mod Seal
mod Entry
mod Levels
mod Codec
mod Pipeline
mod Created
mod Clash
mod Lifecycle
mod Served
mod DeepCopy
mod Controller
mod Admission
mod OciHook
mod Cli
mod Linked
mod Node
