-- ===== src/Vm/Runs/Sends.antt =====
-- A send of chain/vm/vm.go leaves the older layers and stays within the gas, if the sends do that
-- the receiver makes.
use filecoin.Base.{ℕ, ◌≡◌, ◌∙◌, ◌⊎◌, inl, inr, List, Option, none, some, arith, nat_eq}
use filecoin.Base.Int.{ℤ, pos}
use filecoin.ChainTypes.Actor.{Actor}
use filecoin.ChainTypes.Message.{Message}
use filecoin.StateTree.{StateTree}
use filecoin.StateTree.Keeps.{Keeps, Keeps-refl, KeepsIf}
use filecoin.Vm.Gas.{GasCharge, on_create_actor, on_method_invocation}
use filecoin.Vm.Transfer.{Outcome, done, fatal, forbidden, insufficient_funds, transfer}
use filecoin.Vm.ActorError.{ActorError}
use filecoin.Vm.Machine.{
  Machine, Lookup, resolved, no_address, failed, FoundAt, found, no_actor, unknown, lookup_failed,
  lookup_id, id_of, actor_at, set_actor_at, register_new_address,
}
use filecoin.Vm.Runtime.{
  Exec, Context, Result, value, raised, charge, charge_dropped, gas_on_actor_exec, answer_as,
}
use filecoin.Vm.Program.{Reply, returned, errored, panicked}
use filecoin.Vm.Send.{
  Code, Nested, make_actor, loaded, constructed, account_set, set_account, registered,
  register_charged, try_create_account_actor, ended, call_method, funds_moved, move_and_call,
  paid_for, deliver, deliver_new, to_actor, context_of, after_charge, initial_charge, send_by, send,
}
use filecoin.Vm.Runs.{
  Runs, Runs-refl, Runs-trans, answer_as-Runs, charge-Runs, charge_dropped-Runs, CoveredIf,
  actor_at-Keeps, set_actor_at-Keeps, register_new_address-Keeps, transfer-Keeps,
}
use filecoin.Vm.Runs.Programs.{invoke-Runs}

module _ (m : Machine) (code : Code) (nested : Nested)
    (nested-Runs : (from to method : ℕ) (v : ℤ) (params : List ℕ) (e : Exec)
      → Runs e (nested from to method v params e).1) where
  make_actor-CoveredIf : (addr : ℕ) → CoveredIf (make_actor m addr)
  unfolding make_actor
  make_actor-CoveredIf addr = ground arith

  loaded-Runs :
      (e : Exec) (r : FoundAt) (st : StateTree)
      → Keeps e.tree st
      → Runs e (loaded m code nested e (r, st)).1
  unfolding loaded
  loaded-Runs e (found act) st k = answer_as-Runs e st k
  loaded-Runs e no_actor st k = answer_as-Runs e st k
  loaded-Runs e unknown st k = answer_as-Runs e st k
  loaded-Runs e lookup_failed st k = answer_as-Runs e st k

  constructed-Runs :
      (a : ℕ) (e : Exec) (r : Reply) (e' : Exec)
      → Runs e e'
      → Runs e (constructed m code nested a (r, e')).1
  unfolding constructed
  constructed-Runs a e (returned ret) e' k =
      let r = actor_at m a e'.tree in
      Runs-trans e e' _ k (loaded-Runs e' r.0 r.1 (actor_at-Keeps m a e'.tree))
  constructed-Runs a e (errored err) e' k = k
  constructed-Runs a e (panicked err) e' k = k

  account_set-Runs :
      (addr a : ℕ) (e : Exec) (o : Option StateTree)
      → KeepsIf e.tree o
      → Runs e (account_set m code nested addr a e o).1
  unfolding account_set
  account_set-Runs addr a e none k = Runs-refl e
  account_set-Runs addr a e (some st) k =
      let e1 = answer_as e st in
      let r = nested m.system_address a m.constructor_method (pos 0) (m.account_params addr) e1 in
      constructed-Runs a e r.0 r.1 (
        Runs-trans e e1 _ (answer_as-Runs e st k)
          (nested-Runs m.system_address a m.constructor_method (pos 0) (m.account_params addr) e1))

  set_account-Runs :
      (addr a : ℕ) (o : Option Actor) (e : Exec)
      → CoveredIf o
      → Runs e (set_account m code nested addr a o e).1
  unfolding set_account
  set_account-Runs addr a none e h = Runs-refl e
  set_account-Runs addr a (some act) e h =
      account_set-Runs addr a e (set_actor_at m a act e.tree)
        (set_actor_at-Keeps m a act e.tree e.tree (Keeps-refl e.tree) (λ s. h))

  registered-Runs :
      (addr : ℕ) (e : Exec) (o : Option ℕ) (st : StateTree)
      → Keeps e.tree st
      → Runs e (registered m code nested addr e (o, st)).1
  unfolding registered
  registered-Runs addr e none st k = answer_as-Runs e st k
  registered-Runs addr e (some a) st k =
      Runs-trans e (answer_as e st) _ (answer_as-Runs e st k)
        (set_account-Runs addr a (make_actor m addr) (answer_as e st) (make_actor-CoveredIf addr))

  register_charged-Runs :
      (addr : ℕ) (e : Exec) (r : Result Unit) (e' : Exec)
      → Runs e e'
      → Runs e (register_charged m code nested addr (r, e')).1
  unfolding register_charged
  register_charged-Runs addr e (raised err) e' k = k
  register_charged-Runs addr e (value u) e' k =
      let r = register_new_address m addr e'.tree in
      Runs-trans e e' _ k
        (registered-Runs addr e' r.0 r.1 (register_new_address-Keeps m addr e'.tree))

  try_create-Runs : (addr : ℕ) (e : Exec) → Runs e (try_create_account_actor m code nested addr e).1
  unfolding try_create_account_actor
  try_create-Runs addr e =
      let g = on_create_actor m.prices in
      register_charged-Runs addr e (charge g e).0 (charge g e).1 (charge-Runs g e)

  module _ (c : Context) where
    call_method-Runs : (act : Actor) (e : Exec) → Runs e (call_method m code nested c act e).1
    unfolding call_method
    call_method-Runs act e =
        let e1 = charge_dropped gas_on_actor_exec e in
        ground (
          arith,
          Runs-refl e,
          Runs-trans e e1 _ (charge_dropped-Runs gas_on_actor_exec e) (
              invoke-Runs m c (λ to. nested c.vmsg.to to) (λ to. nested-Runs c.vmsg.to to)
                (code act.code) c.vmsg.method e1),
        )

    funds_moved-Runs :
        (act : Actor) (e : Exec) (st : StateTree) (o : Outcome)
        → Keeps e.tree st
        → Runs e (funds_moved m code nested c act e (st, o)).1
    unfolding funds_moved
    funds_moved-Runs act e st done k =
        Runs-trans e (answer_as e st) _ (answer_as-Runs e st k)
          (call_method-Runs act (answer_as e st))
    funds_moved-Runs act e st fatal k = answer_as-Runs e st k
    funds_moved-Runs act e st forbidden k = answer_as-Runs e st k
    funds_moved-Runs act e st insufficient_funds k = answer_as-Runs e st k

    ended-Runs : (e : Exec) (r : Reply × Exec) → Runs e r.1 → Runs e (ended m code nested c r).1
    unfolding ended
    ended-Runs e (r, e') k = Runs-trans e e' _ k (charge_dropped-Runs _ e')

    move_and_call-Runs :
        (from : ℕ) (act : Actor) (e : Exec) → Runs e (move_and_call m code nested c from act e).1
    unfolding move_and_call
    move_and_call-Runs from act e =
        let t = transfer (id_of m e.tree) from c.vmsg.to c.vmsg.value e.tree in
        ground (
          arith,
          call_method-Runs act e,
          funds_moved-Runs act e t.0 t.1
              (transfer-Keeps (id_of m e.tree) from c.vmsg.to c.vmsg.value e.tree),
        )

    paid_for-Runs :
        (from : ℕ) (act : Actor) (e : Exec) (r : Result Unit) (e' : Exec)
        → Runs e e'
        → Runs e (paid_for m code nested c from act (r, e')).1
    unfolding paid_for
    paid_for-Runs from act e (raised err) e' k = k
    paid_for-Runs from act e (value u) e' k =
        Runs-trans e e' _ k (
          ended-Runs e' (move_and_call m code nested c from act e')
            (move_and_call-Runs from act e'))

    deliver-Runs :
        (from : ℕ) (act : Actor) (e : Exec) → Runs e (deliver m code nested c from act e).1
    unfolding deliver
    deliver-Runs from act e =
        let g = on_method_invocation m.numbers m.prices c.vmsg.value c.vmsg.method in
        paid_for-Runs from act e (charge g e).0 (charge g e).1 (charge-Runs g e)

    deliver_new-Runs :
        (from : ℕ) (e : Exec) (r : Result Actor ⊎ ActorError) (e' : Exec)
        → Runs e e'
        → Runs e (deliver_new m code nested c from (r, e')).1
    unfolding deliver_new
    deliver_new-Runs from e (inl (value act)) e' k = Runs-trans e e' _ k (deliver-Runs from act e')
    deliver_new-Runs from e (inl (raised err)) e' k = k
    deliver_new-Runs from e (inr err) e' k = k

    create_then-Runs :
        (from : ℕ) (e : Exec) (st : StateTree)
        → Keeps e.tree st
        → Runs e
            (deliver_new m code nested c from
              (try_create_account_actor m code nested c.vmsg.to (answer_as e st))).1
    create_then-Runs from e st k =
        let e1 = answer_as e st in
        let r = try_create_account_actor m code nested c.vmsg.to e1 in
        deliver_new-Runs from e r.0 r.1
          (Runs-trans e e1 _ (answer_as-Runs e st k) (try_create-Runs c.vmsg.to e1))

    to_actor-Runs :
        (from : ℕ) (e : Exec) (r : FoundAt) (st : StateTree)
        → Keeps e.tree st
        → Runs e (to_actor m code nested c from e (r, st)).1
    unfolding to_actor
    to_actor-Runs from e (found act) st k =
        Runs-trans e (answer_as e st) _ (answer_as-Runs e st k)
          (deliver-Runs from act (answer_as e st))
    to_actor-Runs from e lookup_failed st k = answer_as-Runs e st k
    to_actor-Runs from e no_actor st k = create_then-Runs from e st k
    to_actor-Runs from e unknown st k = create_then-Runs from e st k

    after_charge-Runs :
        (from : ℕ) (e : Exec) (r : Result Unit) (e' : Exec)
        → Runs e e'
        → Runs e (after_charge m code nested c from (r, e')).1
    unfolding after_charge
    after_charge-Runs from e (raised err) e' k = k
    after_charge-Runs from e (value u) e' k =
        let e1 = charge_dropped gas_on_actor_exec e' in
        let r = actor_at m c.vmsg.to e1.tree in
        Runs-trans e e' _ k (
          Runs-trans e' e1 _ (charge_dropped-Runs gas_on_actor_exec e')
            (to_actor-Runs from e1 r.0 r.1 (actor_at-Keeps m c.vmsg.to e1.tree)))

  initial_charge-Runs :
      (g : Option GasCharge) (e : Exec) → Runs e (initial_charge m code nested g e).1
  initial_charge-Runs none e = Runs-refl e
  initial_charge-Runs (some g) e = charge-Runs g e

  send_by-Runs :
      (origin nonce : ℕ) (g : Option GasCharge) (msg : Message) (e : Exec) (l : Lookup)
      → Runs e (send_by m code nested origin nonce g msg e l).1
  unfolding send_by
  send_by-Runs origin nonce g msg e (resolved a) =
      let r = initial_charge m code nested g e in
      after_charge-Runs (context_of origin nonce msg a) msg.from e r.0 r.1 (initial_charge-Runs g e)
  send_by-Runs origin nonce g msg e no_address = Runs-refl e
  send_by-Runs origin nonce g msg e failed = Runs-refl e

  -- A send of a message with the limit that is available anyway.
  pub send-Runs :
      (origin nonce : ℕ) (g : Option GasCharge) (msg : Message) (e : Exec)
      → msg.gas_limit ≡ e.meter.gas_available
      → Runs e (send m code nested origin nonce g msg e).1
  unfolding send
  send-Runs origin nonce g msg e q =
      let e1 : Exec = record e { meter = record e.meter { gas_available = msg.gas_limit } } in
      let r = send_by-Runs origin nonce g msg e1 (lookup_id m e.tree msg.from) in
      record {
        keeps = r.keeps;
        limits = record {
          same_available = r.limits.same_available ∙ q;
          within = λ h. r.limits.within (rw q h);
        };
      }
