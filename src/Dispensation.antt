-- ===== src/Dispensation.antt =====
-- x/dispensation: distributions of coins to many recipients, and the minting for the ecosystem pool.
pub mod Records
pub mod Names
pub mod Keeper
pub mod Queries
pub mod Executors
pub mod Server
pub mod Mint
pub mod Reserve
pub mod Solvency
pub mod Runs
pub mod Selection
pub mod Limits
pub mod Funding
pub mod Creation
pub mod Cap
pub mod Counter
pub mod Histories
pub mod Progress
