-- ===== src/Bridge.antt =====
-- x/ethbridge: the bridge to Ethereum. Claims of the validators mint, and burns and locks destroy.
pub mod Claim
pub mod Keeper
pub mod Messages
pub mod Server
pub mod Handler
pub mod Frame
pub mod Destroy
pub mod Charges
pub mod Checked
pub mod Mint
pub mod Once
pub mod Blacklist
pub mod Authority
