-- ===== src/Tests.antt =====
-- Concrete runs of the models, and the theorems applied to concrete inputs.
mod Data
mod Delivery
mod Registry
mod Scopes
mod Plugins
mod Entities
mod Topics
mod Messages
mod Units
mod Switches
mod Sections
mod Plans
mod Fans
mod Daemons
mod Actions
mod Scripts
