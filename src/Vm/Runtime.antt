-- ===== src/Vm/Runtime.antt =====
-- chain/vm/runtime.go: the runtime that an actor's code runs on. The code of an actor, which
-- specs-actors has, is a program: the calls of the runtime that it makes, each with what it goes on
-- with for each answer. What a head of an actor stands for is its number: a program that reads or
-- stores it makes the charges of the block store. Syscalls are their charges, their answers are
-- parts of the program. TotalFilCircSupply, randomness and the traces are left out.

use filecoin.Base.{ℕ, Bool, Option, none, some, if◌then◌else◌, ◌==◌, nat_eq, not}
use filecoin.Base.Int.{ℤ, pos}
use filecoin.ChainTypes.Actor.{Actor}
use filecoin.ChainTypes.Message.{Message}
use filecoin.StateTree.{StateTree}
use filecoin.Vm.Gas.{GasCharge, new_gas_charge, on_create_actor, on_delete_actor, is_zero}
use filecoin.Vm.Gas.Charge.{Meter, charge_gas}
use filecoin.Vm.Transfer.{Outcome, done, fatal, forbidden, insufficient_funds, transfer}
use filecoin.Vm.ActorError.{
  ExitCode, ok, insufficient_funds, out_of_gas, forbidden, illegal_actor, illegal_argument,
  ActorError, fatal_error, new_error,
}
use filecoin.Vm.Machine.{
  Machine, Lookup, resolved, no_address, failed, FoundAt, found, no_actor, unknown, lookup_failed,
  lookup_id, id_of, actor_at, set_actor_at, delete_actor_at,
}

-- What a call of the runtime changes for the calls around it too: the tree, the gas, and the
-- number of actors created.
pub record Exec : Type 0 where
  pub tree : StateTree
  pub meter : Meter
  pub created : ℕ

pub record Runtime : Type 0 where
  pub exec : Exec
  pub allow_internal : Bool
  pub caller_validated : Bool

-- The message that a runtime runs, with the sender resolved, and the origin of it all.
pub record Context : Type 0 where
  pub vmsg : Message
  pub origin : ℕ
  pub origin_nonce : ℕ

-- A call of the runtime returns a value, or panics with an error.
pub data Result (A : Type 0) : Type 0 where
  value : A → Result A
  raised : ActorError → Result A

-- rt.Abortf
abbrev pub abort : {A : Type 0} → ExitCode → Result A
abort c = raised (new_error c)

abbrev pub with_meter : Exec → Meter → Exec
with_meter e meter = record e { meter = meter }

-- chargeGasSafe where its error is dropped
unfoldable pub charge_dropped : GasCharge → Exec → Exec
unfolding charge_gas
charge_dropped g e = with_meter e (charge_gas e.meter g).1

abbrev pub gas_on_actor_exec : GasCharge
gas_on_actor_exec = new_gas_charge (pos 0) (pos 0)

-- chargeGas: an error panics
unfoldable pub charge : GasCharge → Exec → Result Unit × Exec
unfolding charge_gas
charge g e =
    let (paid, meter) = charge_gas e.meter g in
    (if paid then value tt else abort out_of_gas, with_meter e meter)

abbrev pub error_of : Outcome → Option ActorError
error_of done = none
error_of fatal = some fatal_error
error_of forbidden = some (new_error ExitCode.forbidden)
error_of insufficient_funds = some (new_error ExitCode.insufficient_funds)

abbrev pub answer_as : Exec → StateTree → Exec
answer_as e st = record e { tree = st }

module _ (m : Machine) (c : Context) where
  -- Message().Receiver()
  abbrev receiver : ℕ
  receiver = c.vmsg.to

  unfoldable pub address_found : Exec → Lookup → Result (Option ℕ) × Exec
  address_found e (resolved a) = (value (some a), e)
  address_found e no_address = (value none, e)
  address_found e failed = (raised fatal_error, e)

  -- ResolveAddress
  unfoldable pub resolve_address : ℕ → Exec → Result (Option ℕ) × Exec
  unfolding address_found lookup_id
  resolve_address addr e = address_found e (lookup_id m e.tree addr)

  unfoldable pub code_found : Exec → FoundAt × StateTree → Result (Option ℕ) × Exec
  code_found e (found act, st) = (value (some act.code), answer_as e st)
  code_found e (no_actor, st) = (value none, answer_as e st)
  code_found e (unknown, st) = (value none, answer_as e st)
  code_found e (lookup_failed, st) = (raised fatal_error, answer_as e st)

  unfoldable pub get_actor_code_cid : ℕ → Exec → Result (Option ℕ) × Exec
  unfolding code_found actor_at
  get_actor_code_cid addr e = code_found e (actor_at m addr e.tree)

  -- CurrentBalance with GetBalance: an actor that is not there has nothing, and any error has the
  -- code 0, which makes the abort fatal
  unfoldable pub balance_found : Exec → FoundAt × StateTree → Result ℤ × Exec
  balance_found e (found act, st) = (value act.balance, answer_as e st)
  balance_found e (no_actor, st) = (value (pos 0), answer_as e st)
  balance_found e (_, st) = (abort ok, answer_as e st)

  unfoldable pub current_balance : Exec → Result ℤ × Exec
  unfolding balance_found actor_at new_error
  current_balance e = balance_found e (actor_at m c.vmsg.to e.tree)

  -- the head of the receiver, which Readonly and Transaction read first; each aborts with its code
  unfoldable pub head_found : ExitCode → Exec → FoundAt × StateTree → Result ℕ × Exec
  head_found code e (found act, st) = (value act.head, answer_as e st)
  head_found code e (_, st) = (abort code, answer_as e st)

  unfoldable pub read_head : ExitCode → Exec → Result ℕ × Exec
  unfolding head_found actor_at new_error
  read_head code e = head_found code e (actor_at m c.vmsg.to e.tree)

  unfoldable pub commit_found : ℕ → ℕ → Exec → FoundAt × StateTree → Exec
  unfolding set_actor_at
  commit_found old new e (found act, st) =
      if act.head == old
      then elim (set_actor_at m c.vmsg.to (record act { head = new }) st) [
        | none ↦ answer_as e st
        | some st' ↦ answer_as e st'
      ]
      else answer_as e st
  commit_found old new e (_, st) = answer_as e st

  -- stateCommit, whose error both callers drop
  unfoldable pub state_commit : ℕ → ℕ → Exec → Exec
  unfolding commit_found actor_at
  state_commit old new e = commit_found old new e (actor_at m c.vmsg.to e.tree)

  -- the end of CreateActor and of DeleteActor, by the tree that was changed, if it was
  unfoldable pub changed : Exec → Option StateTree → Result Unit × Exec
  unfolding charge_dropped new_gas_charge
  changed e none = (raised fatal_error, e)
  changed e (some st) = (value tt, charge_dropped gas_on_actor_exec (answer_as e st))

  -- CreateActor
  unfoldable pub set_new : ℕ → ℕ → Result Unit × Exec → Result Unit × Exec
  unfolding set_actor_at changed
  set_new code addr (raised err, e) = (raised err, e)
  set_new code addr (value _, e) =
      let act : Actor = record { code = code; head = m.empty_object; nonce = 0; balance = pos 0 } in
      changed e (set_actor_at m addr act e.tree)

  unfoldable pub create_found : ℕ → ℕ → Exec → FoundAt × StateTree → Result Unit × Exec
  unfolding set_new charge on_create_actor
  create_found code addr e (found act, st) = (abort illegal_argument, answer_as e st)
  create_found code addr e (_, st) =
      set_new code addr (charge (on_create_actor m.prices) (answer_as e st))

  unfoldable pub create_actor : ℕ → ℕ → Exec → Result Unit × Exec
  unfolding create_found actor_at new_error
  create_actor code addr e =
      if not (m.is_builtin code)
      then (abort illegal_argument, e)
      else if m.is_singleton code
      then (abort illegal_argument, e)
      else create_found code addr e (actor_at m addr e.tree)

  -- DeleteActor of the receiver
  unfoldable pub delete_now : Exec → Result Unit × Exec
  unfolding delete_actor_at changed
  delete_now e = changed e (delete_actor_at m c.vmsg.to e.tree)

  unfoldable pub burn : Exec → StateTree × Outcome → Result Unit × Exec
  unfolding delete_now
  burn e (st, done) = delete_now (answer_as e st)
  burn e (st, _) = (raised fatal_error, answer_as e st)

  unfoldable pub delete_found : Exec → FoundAt × StateTree → Result Unit × Exec
  unfolding burn transfer id_of new_error
  delete_found e (found act, st) =
      let burnt = burn e (transfer (id_of m st) c.vmsg.to m.burnt_funds_address act.balance st) in
      let gone = delete_now (answer_as e st) in if is_zero act.balance then gone else burnt
  delete_found e (no_actor, st) = (abort illegal_actor, answer_as e st)
  delete_found e (unknown, st) = (abort illegal_actor, answer_as e st)
  delete_found e (lookup_failed, st) = (raised fatal_error, answer_as e st)

  unfoldable pub delete_charged : Result Unit × Exec → Result Unit × Exec
  unfolding delete_found actor_at
  delete_charged (raised err, e) = (raised err, e)
  delete_charged (value _, e) = delete_found e (actor_at m c.vmsg.to e.tree)

  unfoldable pub delete_receiver : Exec → Result Unit × Exec
  unfolding delete_charged charge on_delete_actor
  delete_receiver e = delete_charged (charge (on_delete_actor m.prices) e)
