-- ===== src/Tests.antt =====
-- Concrete codecs and a concrete ledger, and on them the runs at which the theorems are applied.
mod Codecs
mod Ledger
mod Oracle
mod Admin
mod TokenRegistry
mod Clp
mod Messages
mod Dispensation
mod Minting
mod Swaps
mod Liquidity
mod Bridge
