-- ===== src/Tests.antt =====
-- Runs of the definitions at concrete inputs, and instances of the theorems, by component.
pub mod Data
pub mod Game
pub mod Installer
pub mod Package
pub mod Persistence
pub mod Policy
pub mod Release
pub mod Storage
pub mod Store
pub mod Timer
pub mod Touch
pub mod Session
pub mod Foreground
pub mod Supervisor
pub mod Lifecycle
pub mod Broker
