-- ===== src/ChainTypes.antt =====
-- chain/types: block headers, tipsets and their keys, messages.
pub mod BlockHeader
pub mod TipSet
pub mod Message
pub mod Actor
pub mod TipSetKey
