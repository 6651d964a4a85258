-- ===== src/Clp.antt =====
-- x/clp: the market maker.
pub mod Rat
pub mod Swap
pub mod Pool
pub mod Provider
pub mod Keeper
pub mod Protection
pub mod Asymmetric
pub mod Withdrawal
pub mod Providers
pub mod Executors
pub mod Health
pub mod Queue
pub mod Messages
pub mod Server
pub mod Deposits
pub mod Custody
pub mod Payment
pub mod Legs
pub mod Exchange
pub mod Threshold
pub mod Settings
pub mod Quotients
pub mod Price
pub mod Units
pub mod Unlocked
pub mod Delivery
pub mod Kept
