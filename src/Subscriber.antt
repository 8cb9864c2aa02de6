-- ===== src/Subscriber.antt =====
-- The subscriber (src/subscriber): the events of the broker become rows of the silver table, and a
-- delivery is written to the ERP.
pub mod Normalize
pub mod Silver
pub mod Handler
mod Tests
