-- ===== src/Chain.antt =====
-- What the modules of the chain share: outcomes of a keeper call, state passing, and the parts of
-- the Cosmos SDK that the code under x/ calls, which are parameters.
pub mod Action
pub mod Address
pub mod Bank
