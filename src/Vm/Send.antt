-- ===== src/Vm/Send.antt =====
-- Sending a message: send of chain/vm/vm.go with makeRuntime, TryCreateAccountActor and makeActor
-- of mkactor.go, and internalSend of runtime.go. Nested calls are bounded by a depth, and a call
-- beyond it returns the error `too_deep`.
use filecoin.Base.{
  ◌⊎◌, inl, inr, ℕ, zero, suc, List, [], Option, none, some, if◌then◌else◌, ◌==◌, nat_eq,
}
use filecoin.Base.Int.{ℤ, pos}
use filecoin.ChainTypes.Actor.{Actor}
use filecoin.ChainTypes.Message.{Message}
use filecoin.StateTree.{StateTree, snapshot, clear_snapshot, revert}
use filecoin.Vm.Gas.{GasCharge, new_gas_charge, on_create_actor, on_method_invocation, is_zero}
use filecoin.Vm.Gas.Charge.{Meter}
use filecoin.Vm.Transfer.{Outcome, transfer}
use filecoin.Vm.ActorError.{invalid_receiver, ActorError, fatal_error, too_deep, new_error}
use filecoin.Vm.Machine.{
  Machine, bls, secp256k1, Lookup, resolved, failed, FoundAt, found, lookup_failed, lookup_id,
  id_of, actor_at, set_actor_at, register_new_address,
}
use filecoin.Vm.Runtime.{
  Exec, Context, Result, value, raised, charge_dropped, gas_on_actor_exec, charge, error_of,
  answer_as,
}
use filecoin.Vm.Program.{Program, Reply, returned, errored, panicked, invoke}

-- The methods of the builtin actors by their code: what NewInvoker registers.
abbrev pub Code : Type 0
Code = ℕ → Option (ℕ → Option (Message → Program))

-- A nested send: sender, receiver, method, value and parameters.
abbrev pub Nested : Type 0
Nested = ℕ → ℕ → ℕ → ℤ → List ℕ → Exec → Reply × Exec

-- makeActor; the error of an address that no account can have
unfoldable pub make_actor : Machine → ℕ → Option Actor
make_actor m addr =
    let account : Actor = record {
      code = m.account_code;
      head = m.empty_object;
      nonce = 0;
      balance = pos 0;
    } in
    elim (m.protocol addr) [ bls ↦ some account | secp256k1 ↦ some account | _ ↦ none ]

-- the message with its sender resolved, and the origin
abbrev pub context_of : ℕ → ℕ → Message → ℕ → Context
context_of origin nonce msg a = record {
  vmsg = record msg { from = a };
  origin = origin;
  origin_nonce = nonce;
}

-- the panic of makeRuntime whose sender has no ID
abbrev pub no_sender : Lookup → ActorError
no_sender failed = fatal_error
no_sender _ = new_error invalid_receiver

module _ (m : Machine) (code : Code) (nested : Nested) where
  -- TryCreateAccountActor returns the actor, or an error, or the constructor's call panics.
  unfoldable pub loaded : Exec → FoundAt × StateTree → (Result Actor ⊎ ActorError) × Exec
  loaded e (found act, st) = (inl (value act), answer_as e st)
  loaded e (_, st) = (inl (raised fatal_error), answer_as e st)

  unfoldable pub constructed : ℕ → Reply × Exec → (Result Actor ⊎ ActorError) × Exec
  unfolding loaded actor_at
  constructed a (returned ret, e) = loaded e (actor_at m a e.tree)
  constructed a (errored err, e) = (inl (raised err), e)
  constructed a (panicked err, e) = (inr err, e)

  -- the constructor is called by the system actor
  unfoldable pub account_set : ℕ → ℕ → Exec → Option StateTree → (Result Actor ⊎ ActorError) × Exec
  unfolding constructed
  account_set addr a e none = (inl (raised fatal_error), e)
  account_set addr a e (some st) = constructed a (
      nested m.system_address a m.constructor_method (pos 0) (m.account_params addr)
        (answer_as e st))

  unfoldable pub set_account : ℕ → ℕ → Option Actor → Exec → (Result Actor ⊎ ActorError) × Exec
  unfolding account_set set_actor_at new_error
  set_account addr a none e = (inl (raised (new_error invalid_receiver)), e)
  set_account addr a (some act) e = account_set addr a e (set_actor_at m a act e.tree)

  unfoldable pub registered : ℕ → Exec → Option ℕ × StateTree → (Result Actor ⊎ ActorError) × Exec
  unfolding set_account make_actor
  registered addr e (none, st) = (inl (raised fatal_error), answer_as e st)
  registered addr e (some a, st) = set_account addr a (make_actor m addr) (answer_as e st)

  unfoldable pub register_charged : ℕ → Result Unit × Exec → (Result Actor ⊎ ActorError) × Exec
  unfolding registered register_new_address
  register_charged addr (raised err, e) = (inl (raised err), e)
  register_charged addr (value _, e) = registered addr e (register_new_address m addr e.tree)

  unfoldable pub try_create_account_actor : ℕ → Exec → (Result Actor ⊎ ActorError) × Exec
  unfolding register_charged charge on_create_actor
  try_create_account_actor addr e = register_charged addr (charge (on_create_actor m.prices) e)

  module _ (c : Context) where
    -- the deferred charge
    unfoldable pub ended : Reply × Exec → Reply × Exec
    unfolding charge_dropped new_gas_charge
    ended (r, e) = (r, charge_dropped (new_gas_charge (pos 0) (pos 0)) e)

    -- the method, after the funds are moved
    unfoldable pub call_method : Actor → Exec → Reply × Exec
    unfolding invoke charge_dropped new_gas_charge
    call_method act e =
        if c.vmsg.method == 0
        then (returned [], e)
        else invoke m c (λ to. nested c.vmsg.to to) (code act.code) c.vmsg.method
            (charge_dropped gas_on_actor_exec e)

    unfoldable pub funds_moved : Actor → Exec → StateTree × Outcome → Reply × Exec
    unfolding call_method new_error
    funds_moved act e (st, o) = elim (error_of o) [
      | some err ↦ (errored err, answer_as e st)
      | none ↦ call_method act (answer_as e st)
    ]

    unfoldable pub move_and_call : ℕ → Actor → Exec → Reply × Exec
    unfolding funds_moved call_method transfer id_of
    move_and_call from act e =
        if is_zero c.vmsg.value
        then call_method act e
        else funds_moved act e (transfer (id_of m e.tree) from c.vmsg.to c.vmsg.value e.tree)

    unfoldable pub paid_for : ℕ → Actor → Result Unit × Exec → Reply × Exec
    unfolding move_and_call ended
    paid_for from act (raised err, e) = (errored err, e)
    paid_for from act (value _, e) = ended (move_and_call from act e)

    -- with the receiver's actor at hand; `from` is the sender as the message names it
    unfoldable pub deliver : ℕ → Actor → Exec → Reply × Exec
    unfolding paid_for charge on_method_invocation
    deliver from act e =
        paid_for from act
          (charge (on_method_invocation m.numbers m.prices c.vmsg.value c.vmsg.method) e)

    unfoldable pub deliver_new : ℕ → (Result Actor ⊎ ActorError) × Exec → Reply × Exec
    unfolding deliver
    deliver_new from (inl (value act), e) = deliver from act e
    deliver_new from (inl (raised err), e) = (errored err, e)
    deliver_new from (inr err, e) = (panicked err, e)

    unfoldable pub to_actor : ℕ → Exec → FoundAt × StateTree → Reply × Exec
    unfolding deliver deliver_new try_create_account_actor
    to_actor from e (found act, st) = deliver from act (answer_as e st)
    to_actor from e (lookup_failed, st) = (errored fatal_error, answer_as e st)
    to_actor from e (_, st) = deliver_new from (try_create_account_actor c.vmsg.to (answer_as e st))

    unfoldable pub after_charge : ℕ → Result Unit × Exec → Reply × Exec
    unfolding to_actor actor_at charge_dropped new_gas_charge
    after_charge from (raised err, e) = (errored err, e)
    after_charge from (value _, e) =
        let e' = charge_dropped (new_gas_charge (pos 0) (pos 0)) e in
        to_actor from e' (actor_at m c.vmsg.to e'.tree)

  abbrev pub initial_charge : Option GasCharge → Exec → Result Unit × Exec
  initial_charge none e = (value tt, e)
  initial_charge (some g) e = charge g e

  unfoldable pub send_by : ℕ → ℕ → Option GasCharge → Message → Exec → Lookup → Reply × Exec
  unfolding after_charge charge new_error
  send_by origin nonce g msg e (resolved a) =
      after_charge (context_of origin nonce msg a) msg.from (initial_charge g e)
  send_by origin nonce g msg e l = (panicked (no_sender l), e)

  -- send of a message whose origin is given, with the gas used so far
  unfoldable pub send : ℕ → ℕ → Option GasCharge → Message → Exec → Reply × Exec
  unfolding send_by lookup_id
  send origin nonce g msg e =
      let limited : Meter = record e.meter { gas_available = msg.gas_limit } in
      send_by origin nonce g msg (record e { meter = limited }) (lookup_id m e.tree msg.from)

abbrev pub cleared : StateTree → StateTree
cleared st = elim (clear_snapshot st) [ none ↦ st | some st' ↦ st' ]

abbrev pub message_to : ℕ → ℕ → ℕ → ℤ → List ℕ → Exec → Message
message_to from to method v params e = record {
  version = pos 0;
  to = to;
  from = from;
  nonce = 0;
  value = v;
  gas_price = pos 0;
  gas_limit = e.meter.gas_available;
  method = method;
  params = params;
}

-- The end of internalSend: a send that failed is undone, and the snapshot of `before` is cleared,
-- also after a panic.
unfoldable pub closed : Exec → Reply × Exec → Reply × Exec
unfolding clear_snapshot revert
closed before (returned ret, e) = (
  returned ret,
  record {
    tree = cleared e.tree;
    meter = record before.meter { gas_used = e.meter.gas_used };
    created = e.created;
  },
)
closed before (errored err, e) = (
  errored err,
  record {
    tree = cleared (revert e.tree);
    meter = record before.meter { gas_used = e.meter.gas_used };
    created = e.created;
  },
)
closed before (panicked err, e) = (
  panicked err,
  record {
    tree = cleared e.tree;
    meter = record before.meter { gas_used = e.meter.gas_used };
    created = before.created;
  },
)

-- internalSend
unfoldable pub internal_send : Machine → Code → ℕ → ℕ → ℕ → Nested
unfolding closed send snapshot
internal_send m code origin nonce zero from to method v params e = (errored too_deep, e)
internal_send m code origin nonce (suc n) from to method v params e = closed e (
    send m code (internal_send m code origin nonce n) origin nonce none
      (message_to from to method v params e) (answer_as e (snapshot e.tree)))
