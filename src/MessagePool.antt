-- ===== src/MessagePool.antt =====
-- chain/messagepool: messages that wait for inclusion in a block. `MsgSet` holds the messages of
-- one sender, `State` the pool and what it calls, `Nonce`, `Signatures` and `Pool` its operations, `HeadChange` how it
-- follows the chain, `Push` the node's own messages, and `GasGuess`, `Tally` and `Pruning` what is kept of a
-- pool that is too large.
pub mod MsgSet
pub mod State
pub mod Nonce
pub mod Signatures
pub mod Pool
pub mod HeadChange
pub mod Invariant
pub mod Held
pub mod Accepts
pub mod Push
pub mod GasGuess
pub mod Tally
pub mod Pruning
