-- ===== src/Lib.antt =====
-- The chain client of a Filecoin node, modelled in parts that the node wires together: the types
-- of the chain, the manager that decides which tipsets to sync, the state tree that holds the
-- actors, the gas meter and the virtual machine that applies messages, the index of the chain by
-- height, and the pool of messages that wait for a block.
--
-- The parts meet as follows. Peers announce heads to the sync manager (chain/sync_manager.go),
-- which groups tipsets (chain/types/tipset.go) into buckets of one chain and hands targets to
-- workers. When the head of the chain moves, the message pool (chain/messagepool/messagepool.go)
-- is told which tipsets were reverted and which applied. A message is applied by the virtual
-- machine (chain/vm/vm.go) to a state tree (chain/state/statetree.go), in which actors run on the
-- runtime (chain/vm/runtime.go) and send to each other, while gas is charged (chain/vm/gas.go,
-- chain/vm/gas_v0.go).
--
-- Files:
--   Base: numbers, Boolean tests, lists, Go's maps as association lists (Base.Map), Go's
--     sort.Slice as a sort (Base.Sort), big integers (Base.Int).
--   ChainTypes.BlockHeader: chain/types/blockheader.go. `BlockHeader` is the record; `Hashes` is
--     what is taken from hashing and CIDs.
--   ChainTypes.TipSet: chain/types/tipset.go. `new_tip_set` is NewTipSet, `tipset_less` the order
--     of tipsetSortFunc.
--   ChainTypes.TipSetKey: chain/types/tipset_key.go. `encode_key` and `decode_key`; a loop that
--     could read nothing is bounded by fuel, one round for each byte, which is enough as a CID
--     has bytes.
--   ChainTypes.Message, ChainTypes.Actor: chain/types/message.go, signedmessage.go and actor.go.
--     Addresses and CIDs are numbers.
--   SyncManager.Bucket: the buckets of chain/sync_manager.go (Insert, Pop, PopRelated, Heaviest).
--     `none` stands for a panic at a nil tipset.
--   SyncManager.State, SyncManager.Schedule: the fields, SetPeerHead, and scheduleIncoming,
--     scheduleProcessResult and scheduleWorkSent, each one round of the loop syncScheduler. The
--     channels incomingTipSets and syncTargets are the lists of what was sent; workerChan is
--     whether it is set.
--   SyncManager.Run: the interleavings of these as runs of events.
--   StateTree: chain/state/statetree.go. The HAMT at the root is a map, whose Put and Delete may
--     fail (`Hamt`), and `below` the layers under the top one.
--   Vm.Gas, Vm.Gas.Charge: chain/vm/gas.go, gas_v0.go and chargeGasInternal of runtime.go.
--   Vm.ActorError: chain/actors/aerrors. `exit` is an error with an exit code, `fatal_error` a
--     fatal one.
--   Vm.Machine: what specs-actors and go-address give, and the operations of
--     chain/state/statetree.go on addresses (LookupID is `lookup_id`, GetActor `actor_at`,
--     RegisterNewAddress `register_new_address`).
--   Vm.Transfer, Vm.GasHolder: transfer, transferToGasHolder, transferFromGasHolder and
--     incrementNonce of chain/vm/vm.go, on the state tree.
--   Vm.Runtime, Vm.Program: chain/vm/runtime.go and Invoke of invoker.go. The code of an actor is
--     a `Program`: the calls that it makes of the runtime, each with what follows for each
--     answer. A panic is `raised`, and shimCall makes an error of it.
--   Vm.Send: send of chain/vm/vm.go, internalSend of runtime.go and TryCreateAccountActor of
--     mkactor.go. Nested sends are bounded by a depth that the definitions take; beyond it a send
--     ends with the error `too_deep`, which the code does not have. The theorems hold for every
--     depth, that error included; a depth as large as the gas limit is enough, since every send
--     is paid for (Vm.Depth).
--   Vm.Apply: ApplyMessage and ApplyImplicitMessage of chain/vm/vm.go, step by step.
--   ChainStore.Index: chain/store/index.go. Loops run on fuel, since a loader could return a
--     chain without an end; on a chain whose heights fall, a round for each tipset is enough.
--   MessagePool.MsgSet, Nonce, Signatures, Pool, HeadChange: chain/messagepool/messagepool.go.
--     `Provider` stands for the interface of that name and for the libraries it calls;
--     currentSize, an int, is a natural number, as it counts messages; each operation that holds
--     the pool's lock is one step.
--   MessagePool.Push: Push, PushWithNonce, addLocal and loadLocal of the same file, and what a
--     round of runLoop sends again, in the order of the list of local addresses, as a Go map has
--     none; a message that cannot be serialized or published is among it. Without a current
--     tipset the two pushes read the height of nil, a panic, which is `none`.
--   MessagePool.GasGuess, MessagePool.Tally, MessagePool.Pruning:
--     chain/messagepool/gasguess/guessgas.go and pruning.go. The ratio of reward and gas limit is
--     a float64 of the libraries, taken with its comparison as a parameter. The loop that chooses
--     runs on fuel, a round for each message of the low limit and one more, which is enough as
--     each round chooses a message.
--   Tests: runs at concrete inputs.
--
-- Numbers: nonces wrap around at 2 ^ 64 (`u64`); big integers are exact; gas and heights are
-- exact integers, as the constants and limits keep them far below 2 ^ 63.
--
-- Not modelled: the goroutines of the pool; the code of the builtin actors and the syscalls,
-- which are libraries, the flush of a state tree to a store, and traces; the chain store but for
-- its index, and the fork search of the syncer; payment channels, storage mining and block
-- production; serialisation, network, command line and wiring, which are input and output or
-- generated code.
pub mod Base
pub mod ChainTypes
pub mod SyncManager
pub mod MessagePool
pub mod Vm
pub mod StateTree
pub mod ChainStore
pub mod Tests
