-- ===== src/Core.antt =====
-- internal/core: the entity registry, the command router, and the scope through which a plugin
-- uses them. They are shared by pointer in the source; here each operation takes and returns them.
pub mod Registry
pub mod Router
pub mod Scope
