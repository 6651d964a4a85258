-- ===== src/Oracle.antt =====
-- x/oracle: validators make claims on prophecies; a claim with enough power behind it is final.
pub mod Prophecy
pub mod Keeper
pub mod Finality
pub mod Tally
pub mod Order
pub mod Votes
pub mod OneVote
pub mod Stored
pub mod WhiteList
