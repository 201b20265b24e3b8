-- ===== src/Tests.antt =====
-- Concrete inputs at which the theorems are applied, with runs of the definitions.
pub mod Sample
pub mod Bits
pub mod Pages
pub mod Pools
pub mod Log
pub mod Areas
pub mod Trees
pub mod Summaries
pub mod Addresses
pub mod Flash
pub mod FlashLaws
pub mod Files
pub mod Garbage
