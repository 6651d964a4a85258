-- ===== src/Clp/Kept.antt =====
-- The messages of liquidity keep the deposits of the pools in the account of the module.
pub mod Frames
pub mod Payments
pub mod Additions
pub mod Removals
pub mod Decommissions
pub mod Unlocks
pub mod Parameters
pub mod History
