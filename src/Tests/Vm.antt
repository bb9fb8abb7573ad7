-- ===== src/Tests/Vm.antt =====
-- A message that runs a small program on a small machine.
use filecoin.Base.Map.{put, find}
use filecoin.Base.{
  inl, inr, Bool-cases, arith, ◌⊎◌, ◌+◌, ℕ, ◌≡◌, refl, [], ◌∷◌, none, some, if◌then◌else◌, ◌==◌,
  true, false, ltb,
}
use filecoin.Base.Int.{◌-ℤ◌, pos, ◌≤ℤ◌, +ℤ_parts}
use filecoin.ChainTypes.Actor.{Actor}
use filecoin.ChainTypes.Message.{Message}
use filecoin.StateTree.{snap_actor, StateTree, stored}
use filecoin.StateTree.View.{view}
use filecoin.StateTree.Solvent.{Solvent}
use filecoin.Vm.Runtime.{Exec}
use filecoin.Vm.Gas.{total, Numbers, prices_v0}
use filecoin.Vm.ActorError.{numbered, exit}
use filecoin.Vm.Machine.{Machine, id, secp256k1, resolved, no_address}
use filecoin.Vm.Program.{call, finish, stop, send_to, validate_any}
use filecoin.Vm.Send.{Code, internal_send, send}
use filecoin.Vm.Depth.{FairCode, Ended}
use filecoin.Vm.Depth.Bound.{send_within_depth}
use filecoin.Vm.Runs.Nested.{internal_send_undone}
use filecoin.Vm.Program.{errored}
use filecoin.Vm.Apply.{ApplyRet, receipt, apply_message, apply_implicit_message}
use filecoin.Vm.Apply.Outcomes.{apply_message_charges, apply_message-Bounded}
use filecoin.Vm.Apply.Failed.{Rewarding, Untouched, Charged}
use filecoin.Vm.Apply.Bounded.{Bounded}
use filecoin.Vm.Apply.Kept.{apply_message-Solvent}

abbrev numbers : Numbers
numbers = record {
  sig_bls = 2;
  sig_secp256k1 = 1;
  window_512mib = 0;
  window_32gib = 1;
  window_64gib = 2;
  method_send = 0;
}

-- The addresses below 1000 are IDs; of the others, the init actor knows 1010.
abbrev machine : Machine
machine = record {
  protocol = λ a. if ltb a 1000 then id else secp256k1;
  resolve_in = λ head a. if a == 1010 then resolved 10 else no_address;
  map_to_new_id = λ head a. some (500, head + 1);
  init_address = 1;
  system_address = 0;
  reward_address = 3;
  burnt_funds_address = 99;
  account_code = 7;
  empty_object = 0;
  is_builtin = λ c. true;
  is_singleton = λ c. false;
  constructor_method = 1;
  account_params = λ a. [];
  account_address = λ head. some 1010;
  new_actor_address = λ oa nonce count. some 2000;
  numbers = numbers;
  prices = prices_v0 numbers;
}

-- Actors of the code 8 send 1 to the actor 10, and then stop.
abbrev code : Code
code c =
    if c == 8
    then some (λ method. some (λ msg. call (send_to 10 0 (pos 1) []) (λ r. stop (numbered 16))))
    else if c == 7
    then some (λ method. some (λ msg. call validate_any (λ r. finish (some []))))
    else none

abbrev actor_of : ℕ → ℕ → Actor
actor_of c balance = record { code = c; head = 0; nonce = 0; balance = pos balance }

abbrev start : StateTree
start = record {
  root =
      (1, actor_of 2 0) ∷ (3, actor_of 3 50) ∷ (10, actor_of 7 9000000) ∷ (20, actor_of 8 100) ∷ [];
  top = [];
  below = [];
}

abbrev stopping : Message
stopping = record {
  version = pos 0;
  to = 20;
  from = 1010;
  nonce = 0;
  value = pos 5;
  gas_price = pos 2;
  gas_limit = pos 2000000;
  method = 2;
  params = [];
}

-- The sender has paid for the gas, and nothing else has changed.
abbrev after : StateTree
after = record start {
  top =
      (10, stored (record { code = 7; head = 0; nonce = 1; balance = pos 6988142 }))
      ∷ (3, stored (record { code = 3; head = 0; nonce = 0; balance = pos 2011908 }))
      ∷ [];
}

abbrev stopped : ApplyRet
stopped = record {
  exit_code = numbered 16;
  return_value = [];
  gas_used = pos 1005929;
  actor_err = some (exit (numbered 16));
  penalty = pos 0;
}

stopping_run : apply_message machine stopping code 5 100 start ≡ (receipt stopped, after)
unfolding apply_message prices_v0 find put
stopping_run = refl

reward_there : view start 3 ≡ some (actor_of 3 50)
unfolding snap_actor find
reward_there = refl

rewarding : Rewarding machine start (actor_of 3 50)
rewarding = record { at_id = refl; there_is = reward_there; no_account = refl }

apply_message_charges_example :
    Untouched start stopped after ⊎ Charged machine stopping start (actor_of 3 50) stopped after
apply_message_charges_example =
    apply_message_charges machine stopping code 5 start refl (actor_of 3 50)
      (record { top_distinct = tt; below_distinct = tt }) rewarding 100 stopped after stopping_run
      refl

apply_message-Bounded_example : Bounded stopping (apply_message machine stopping code 5 100 start)
apply_message-Bounded_example = apply_message-Bounded machine stopping code 5 start refl 100

apply_message-Solvent_example :
    Solvent (apply_message machine stopping code 5 100 start).1
    × Solvent (apply_implicit_message machine stopping code 5 start).1
apply_message-Solvent_example = apply_message-Solvent machine stopping code 5 100 start (record {
  top_covered = tt;
  below_covered = tt;
  root_covered = (refl, (refl, (refl, (refl, tt))));
})

-- A nested send from the actor 20 that stops after its own send.
abbrev before : Exec
before = record {
  tree = start;
  meter = record { gas_available = pos 2000000; gas_used = pos 0 };
  created = 0;
}

abbrev spent : Exec
spent = record before { meter = record { gas_available = pos 2000000; gas_used = pos 635980 } }

nested_run :
    internal_send machine code 10 0 5 10 20 2 (pos 0) [] before
    ≡ (errored (exit (numbered 16)), spent)
unfolding internal_send find ◌-ℤ◌ total prices_v0 put
nested_run = refl

internal_send_undone_example :
    ((j : ℕ) → view spent.tree j ≡ view start j)
    × (spent.tree.below ≡ [])
    × (spent.meter.gas_available ≡ pos 2000000)
    × (spent.meter.gas_used ≤ℤ spent.meter.gas_available)
internal_send_undone_example =
    internal_send_undone machine code 10 0 5 10 20 2 (pos 0) [] before spent (exit (numbered 16))
      nested_run (omega arith)

fair : FairCode code
fair n = elim (Bool-cases (n == 8)) [
  | inl y ↦ rw y (λ method msg. (tt, λ r. tt))
  | inr z ↦
      rw z (elim (Bool-cases (n == 7)) [
        | inl y ↦ rw y (λ method msg. (tt, λ r. tt))
        | inr w ↦ rw w tt
      ])
]

send_within_depth_example :
    let r =
      send machine code (internal_send machine code 1010 0 2000000) 1010 0 none stopping before in
    Ended r.0 × (pos 0 ≤ℤ r.1.meter.gas_used)
send_within_depth_example =
    send_within_depth machine code 2000000 none stopping before refl fair tt refl (omega arith)
      (ground (arith, +ℤ_parts (pos 0) (pos 2000000)))
