-- ===== src/FanControl.antt =====
-- internal/plugins/fancontrol: the select entity of FanControl's profiles.
pub mod Names
pub mod Profiles
pub mod Settings
pub mod Control
