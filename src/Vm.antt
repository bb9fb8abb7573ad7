-- ===== src/Vm.antt =====
-- chain/vm and chain/actors/aerrors: the price list and gas accounting, transfers between actors
-- and with the gas holder, the runtime of actors, and the application of messages.
pub mod Gas
pub mod Transfer
pub mod GasHolder
pub mod ActorError
pub mod Machine
pub mod Runtime
pub mod Program
pub mod Send
pub mod Apply
pub mod Runs
pub mod Depth
