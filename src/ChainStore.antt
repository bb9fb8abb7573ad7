-- ===== src/ChainStore.antt =====
-- chain/store: how the chain is kept and looked up.
pub mod Index
