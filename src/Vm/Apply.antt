-- ===== src/Vm/Apply.antt =====
-- ApplyMessage and ApplyImplicitMessage of chain/vm/vm.go. The errors that a message's empty gas
-- price or value cause are left out: an integer always has a value. Traces and times are left out.
pub mod Gas
pub mod Settling
pub mod Failed
pub mod Bounded
pub mod Outcomes
pub mod Kept
use filecoin.Base.{
  ℕ, List, [], ◌∷◌, Bool, true, false, Option, none, some, if◌then◌else◌, ◌==◌, nat_eq, not, ◌||◌,
}
use filecoin.Base.Lists.{length}
use filecoin.Base.Int.{ℤ, pos, ◌*ℤ◌, ◌-ℤ◌, ltb_ℤ}
use filecoin.ChainTypes.Actor.{Actor}
use filecoin.ChainTypes.Message.{Message, u64_of_int}
use filecoin.StateTree.{StateTree, snapshot, revert}
use filecoin.Vm.Gas.{GasCharge, total, on_chain_message, on_chain_return_value, is_zero}
use filecoin.Vm.Transfer.{deduct_funds, deposit_funds}
use filecoin.Vm.GasHolder.{
  Settled, transfer_to_gas_holder, transfer_from_gas_holder, increment_nonce,
}
use filecoin.Vm.ActorError.{
  ExitCode, ok, out_of_gas, sender_invalid, sender_state_invalid, is_ok, ActorError, new_error,
  is_fatal, ret_code,
}
use filecoin.Vm.Machine.{Machine, FoundAt, found, no_actor, unknown, lookup_failed, id_of, actor_at}
use filecoin.Vm.Runtime.{Exec, Result, value, raised, charge}
use filecoin.Vm.Program.{Reply, returned, errored, panicked}
use filecoin.Vm.Send.{Code, send, internal_send, cleared}

pub record ApplyRet : Type 0 where
  pub exit_code : ExitCode
  pub return_value : List ℕ
  pub gas_used : ℤ
  pub actor_err : Option ActorError
  pub penalty : ℤ

-- The errors of ApplyMessage; `panic` is a panic of makeRuntime that nothing catches.
pub data ApplyError : Type 0 where
  no_gas_limit negative_gas_limit from_lookup_failed withdraw_failed nonce_failed : ApplyError
  fatal_failure refund_failed reward_failed wrong_gas_math panic : ApplyError

pub data Applied : Type 0 where
  receipt : ApplyRet → Applied
  failed_with : ApplyError → Applied

unfoldable pub check_message : Message → Option ApplyError
check_message msg =
    if is_zero msg.gas_limit
    then some no_gas_limit
    else if ltb_ℤ msg.gas_limit (pos 0)
    then some negative_gas_limit
    else none

-- a receipt of a message that is not run, for which the miner pays
abbrev pub refused : ExitCode → Option ActorError → ℤ → Applied
refused code err penalty = receipt (record {
  exit_code = code;
  return_value = [];
  gas_used = pos 0;
  actor_err = err;
  penalty = penalty;
})

-- an account's actor without funds, code or state
abbrev pub empty_holder : Actor
empty_holder = record { code = 0; head = 0; nonce = 0; balance = pos 0 }

-- the gas used of the receipt
abbrev pub not_below_zero : ℤ → ℤ
not_below_zero g = if ltb_ℤ g (pos 0) then pos 0 else g

-- the receipt of a message that was run
abbrev pub made_out : List ℕ → Option ActorError → ℤ → ApplyRet
unfolding ret_code
made_out ret err used = record {
  exit_code = ret_code err;
  return_value = ret;
  gas_used = used;
  actor_err = err;
  penalty = pos 0;
}

module _ (m : Machine) (msg : Message) where
  -- The end of ApplyMessage: refund, reward, and the test that the gas holder is empty. The
  -- snapshot is cleared on every way out.
  unfoldable pub rewarded : ApplyRet → Settled → Applied × StateTree
  rewarded ret (st, holder, false) = (failed_with reward_failed, cleared st)
  rewarded ret (st, holder, true) =
      (if is_zero holder.balance then receipt ret else failed_with wrong_gas_math, cleared st)

  unfoldable pub refunded : ApplyRet → Settled → Applied × StateTree
  unfolding rewarded transfer_from_gas_holder id_of ◌*ℤ◌ u64_of_int
  refunded ret (st, holder, false) = (failed_with refund_failed, cleared st)
  refunded ret (st, holder, true) = rewarded ret (
      transfer_from_gas_holder (id_of m st) m.reward_address holder
        (msg.gas_price *ℤ pos (u64_of_int ret.gas_used)) st)

  unfoldable pub settle : Actor → ApplyRet → StateTree → Applied × StateTree
  unfolding refunded transfer_from_gas_holder id_of ◌*ℤ◌ ◌-ℤ◌ u64_of_int
  settle holder ret st = refunded ret (
      transfer_from_gas_holder (id_of m st) msg.from holder
        (pos (u64_of_int (msg.gas_limit -ℤ ret.gas_used)) *ℤ msg.gas_price) st)

  -- the revert, by the exit code
  unfoldable pub reverted : ExitCode → StateTree → StateTree
  unfolding revert
  reverted code st = if is_ok code then st else revert st

  unfoldable pub receipt_of : Actor → List ℕ → Option ActorError → Exec → Applied × StateTree
  unfolding settle reverted ret_code
  receipt_of holder ret err e =
      settle holder (made_out ret err (not_below_zero e.meter.gas_used))
        (reverted (ret_code err) e.tree)

  -- the charge for the returned value
  unfoldable pub value_charged : Actor → List ℕ → Result Unit × Exec → Applied × StateTree
  unfolding receipt_of
  value_charged holder ret (value _, e) = receipt_of holder ret none e
  value_charged holder ret (raised err, e) = receipt_of holder [] (some err) e

  -- ApplyMessage after send. An error comes with no value: Invoke returns none with it.
  unfoldable pub after_send : Actor → Reply × Exec → Applied × StateTree
  unfolding value_charged receipt_of is_fatal charge on_chain_return_value
  after_send holder (returned [], e) = receipt_of holder [] none e
  after_send holder (returned (b ∷ bs), e) =
      value_charged holder (b ∷ bs) (charge (on_chain_return_value m.prices (length (b ∷ bs))) e)
  after_send holder (errored err, e) =
      if is_fatal err
      then (failed_with fatal_failure, cleared e.tree)
      else receipt_of holder [] (some err) e
  after_send holder (panicked err, e) = (failed_with panic, cleared e.tree)

  module _ (code : Code) (depth : ℕ) (msg_gas : GasCharge) where
    unfoldable pub run_message : Actor → StateTree → Applied × StateTree
    unfolding after_send send internal_send snapshot
    run_message holder st = after_send holder (
        send m code (internal_send m code msg.from msg.nonce depth) msg.from msg.nonce
          (some msg_gas) msg
          (record {
            tree = snapshot st;
            meter = record { gas_available = msg.gas_limit; gas_used = pos 0 };
            created = 0;
          }))

    unfoldable pub nonce_raised : Settled → Applied × StateTree
    unfolding run_message
    nonce_raised (st, holder, true) = run_message holder st
    nonce_raised (st, holder, false) = (failed_with nonce_failed, st)

    unfoldable pub withdrawn : Settled → Applied × StateTree
    unfolding nonce_raised increment_nonce id_of
    withdrawn (st, holder, true) = nonce_raised (increment_nonce (id_of m st) msg.from holder st)
    withdrawn (st, holder, false) = (failed_with withdraw_failed, st)

    -- the checks of the sender's actor, and the transfer of the most that the message may cost
    unfoldable pub from_sender : ℤ → FoundAt × StateTree → Applied × StateTree
    unfolding withdrawn transfer_to_gas_holder id_of ◌*ℤ◌ u64_of_int new_error
    from_sender penalty (found act, st) =
        let cost = pos (u64_of_int msg.gas_limit) *ℤ msg.gas_price in
        let state_invalid : Applied × StateTree =
          (refused sender_state_invalid (some (new_error sender_state_invalid)) penalty, st) in
        let go = withdrawn (transfer_to_gas_holder (id_of m st) msg.from empty_holder cost st) in
        if not (act.code == m.account_code)
        then (refused sender_invalid (some (new_error sender_invalid)) penalty, st)
        else if not (msg.nonce == act.nonce)
        then state_invalid
        else if ltb_ℤ act.balance cost
        then state_invalid
        else go
    from_sender penalty (lookup_failed, st) = (failed_with from_lookup_failed, st)
    from_sender penalty (_, st) =
        (refused sender_invalid (some (new_error sender_invalid)) penalty, st)

  -- by what is wrong with the message, if anything is
  unfoldable pub apply_checked :
      Code → ℕ → GasCharge → ℤ → StateTree → Option ApplyError → Applied × StateTree
  unfolding from_sender actor_at total
  apply_checked code depth msg_gas penalty st (some err) = (failed_with err, st)
  apply_checked code depth msg_gas penalty st none =
      if ltb_ℤ msg.gas_limit (total msg_gas)
      then (refused out_of_gas none penalty, st)
      else from_sender code depth msg_gas penalty (actor_at m msg.from st)

  -- `chain_length` is the length of the message as it stands in the chain.
  unfoldable pub apply_message : Code → ℕ → ℕ → StateTree → Applied × StateTree
  unfolding apply_checked check_message on_chain_message total ◌*ℤ◌ u64_of_int
  apply_message code depth chain_length st =
      let msg_gas = on_chain_message m.prices chain_length in
      apply_checked code depth msg_gas (msg.gas_price *ℤ pos (u64_of_int (total msg_gas))) st
        (check_message msg)

-- the receipt of a message without a sender who pays; no snapshot is taken
unfoldable pub implicit_receipt : Reply × Exec → Applied × StateTree
unfolding ret_code
implicit_receipt (returned ret, e) = (
  receipt (record {
    exit_code = ok;
    return_value = ret;
    gas_used = pos 0;
    actor_err = none;
    penalty = pos 0;
  }),
  e.tree,
)
implicit_receipt (errored err, e) = (refused (ret_code (some err)) (some err) (pos 0), e.tree)
implicit_receipt (panicked err, e) = (failed_with panic, e.tree)

unfoldable pub apply_implicit_message :
    Machine → Message → Code → ℕ → StateTree → Applied × StateTree
unfolding implicit_receipt send internal_send
apply_implicit_message m msg code depth st = implicit_receipt (
    send m code (internal_send m code msg.from msg.nonce depth) msg.from msg.nonce none msg
      (record {
        tree = st;
        meter = record { gas_available = msg.gas_limit; gas_used = pos 0 };
        created = 0;
      }))
