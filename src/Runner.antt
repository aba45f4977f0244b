-- ===== src/Runner.antt =====
-- internal/plugins/runner: entities whose commands run the scripts of the configuration.
pub mod Settings
pub mod Checks
pub mod Options
pub mod Invocation
pub mod Params
pub mod Getter
pub mod States
pub mod Commands
pub mod Refresh
pub mod Starting
pub mod Running
