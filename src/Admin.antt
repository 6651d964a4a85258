-- ===== src/Admin.antt =====
-- x/admin: the accounts that may call the administrative messages of each module.
pub mod Keeper
pub mod Accounts
