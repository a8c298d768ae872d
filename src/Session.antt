-- ===== src/Session.antt =====
-- The session daemon: what it lets a foreground program do, and which program is in the foreground.
pub mod Ids
pub mod Control
pub mod Router
pub mod Status
pub mod Foreground
pub mod Supervisor
pub mod Lifecycle
