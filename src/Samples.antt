-- ===== src/Samples.antt =====
-- Concrete inputs: small primitives, packs, indexes, plans, patterns and snapshots.
mod Packs
mod Indexes
mod Plans
mod Recoveries
mod Trees
mod Caches
mod Masters
mod Executions
