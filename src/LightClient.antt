-- ===== src/LightClient.antt =====
-- modules/light-client: the store's layout by client, and reading and writing it.
pub mod Errors
pub mod Client
pub mod Registry
pub mod Path
pub mod Context
