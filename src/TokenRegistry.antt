-- ===== src/TokenRegistry.antt =====
-- x/tokenregistry: the tokens that the chain knows, and what each may be used for.
pub mod Keeper
pub mod Entries
