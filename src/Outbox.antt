-- ===== src/Outbox.antt =====
-- The outbound half (src/outbox_worker): confirmed ERP orders are put into the outbox table, and the
-- entries that are due are pushed to the marketplaces.
pub mod Enqueue
pub mod Processor
pub mod Queue
pub mod Invariant
pub mod Source
pub mod Worker
mod Tests
