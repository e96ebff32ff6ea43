-- ===== src/Collective.antt =====
-- The collective operations of the round-time synchronisation,
-- src/reprompi_bench/sync/process_sync/reprompi_collectives.c.
pub mod TopBit
pub mod Allreduce
pub mod Bcast
mod Examples
