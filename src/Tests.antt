-- ===== src/Tests.antt =====
-- Concrete runs of the parts, at which the theorems apply.
pub mod Toy
pub mod Canons
pub mod Policies
pub mod Gateways
pub mod Ledgers
pub mod Identities
pub mod Replays
pub mod Recoveries
pub mod Appends
pub mod Wires
pub mod Artifacts
pub mod Homes
pub mod Appended
pub mod Bundles
pub mod Storages
