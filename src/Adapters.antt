-- ===== src/Adapters.antt =====
-- Marketplace adapters (src/adapters).
pub mod Dto
pub mod Http
pub mod Paris
pub mod OAuth
pub mod MercadoLibre
pub mod Registry
pub mod Console
mod Tests
