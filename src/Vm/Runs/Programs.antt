-- ===== src/Vm/Runs/Programs.antt =====
-- The programs of actors leave the older layers and stay within the gas, if the sends do that they
-- make.
use filecoin.Base.{ℕ, List, true, false, Option, none, some, arith}
use filecoin.Base.Int.{ℤ}
use filecoin.ChainTypes.Message.{Message}
use filecoin.StateTree.{StateTree}
use filecoin.StateTree.Keeps.{Keeps, Keeps-refl}
use filecoin.Vm.Machine.{Machine, FoundAt, found, no_actor, unknown, lookup_failed, actor_at}
use filecoin.Vm.Runtime.{
  Exec, Runtime, Context, Result, value, raised, gas_on_actor_exec, get_actor_code_cid,
}
use filecoin.Vm.Program.{
  Op, charging, resolve, code_of, balance, new_address, delete, validate_any, head_or, allow,
  commit, validate_is, validate_type, create, send_to, Program, finish, stop, fail, call, Reply,
  returned, errored, panicked, validate, validate_caller_is, check_code, validate_caller_type,
  key_found, resolve_to_key_addr, address_given, go_on, address_from, new_actor_address, sent, send,
  perform, finished, run, invoke_method, invoke,
}
use filecoin.Vm.Runs.{
  Runs, Runs-refl, Runs-trans, charge-Runs, charge_dropped-Runs, actor_at-Keeps, Limits-refl,
}
use filecoin.Vm.Runs.Calls.{
  resolve_address-Runs, get_actor_code_cid-Runs, current_balance-Runs, read_head-Runs,
  state_commit-Runs, create_actor-Runs, delete_receiver-Runs,
}

module _ (m : Machine) (c : Context) where
  pub validate-Runs : (e : Exec) (rt : Runtime) → Runs e rt.exec → Runs e (validate m c rt).1.exec
  unfolding validate
  validate-Runs e rt k = ground arith

  validate_caller_is-Runs :
      (e : Exec) (l : List ℕ) (r : Result Unit) (rt : Runtime)
      → Runs e rt.exec
      → Runs e (validate_caller_is m c l (r, rt)).1.exec
  unfolding validate_caller_is
  validate_caller_is-Runs e l (raised err) rt k = k
  validate_caller_is-Runs e l (value u) rt k = k

  check_code-Runs :
      (e : Exec) (l : List ℕ) (rt : Runtime) (r : Result (Option ℕ)) (e' : Exec)
      → Runs e e'
      → Runs e (check_code m c l rt (r, e')).1.exec
  unfolding check_code
  check_code-Runs e l rt (raised err) e' k = k
  check_code-Runs e l rt (value o) e' k = k

  validate_caller_type-Runs :
      (e : Exec) (l : List ℕ) (r : Result Unit) (rt : Runtime)
      → Runs e rt.exec
      → Runs e (validate_caller_type m c l (r, rt)).1.exec
  unfolding validate_caller_type
  validate_caller_type-Runs e l (raised err) rt k = k
  validate_caller_type-Runs e l (value u) rt k =
      let r = get_actor_code_cid m c c.vmsg.from rt.exec in
      check_code-Runs e l rt r.0 r.1
        (Runs-trans e rt.exec _ k (get_actor_code_cid-Runs m c c.vmsg.from rt.exec))

  key_found-Keeps :
      (st : StateTree) (r : FoundAt) (st' : StateTree)
      → Keeps st st'
      → Keeps st (key_found m c (r, st')).1
  unfolding key_found
  key_found-Keeps st (found act) st' k = k
  key_found-Keeps st no_actor st' k = k
  key_found-Keeps st unknown st' k = k
  key_found-Keeps st lookup_failed st' k = k

  address_given-Runs :
      (e : Exec) (st : StateTree) (o : Option ℕ)
      → Keeps e.tree st
      → Runs e (address_given m c e st o).1
  unfolding address_given
  address_given-Runs e st none k = record { keeps = k; limits = Limits-refl e.meter }
  address_given-Runs e st (some a) k = record { keeps = k; limits = Limits-refl e.meter }

  address_from-Runs :
      (e : Exec) (a : ℕ) (st : StateTree) → Keeps e.tree st → Runs e (address_from m c e (a, st)).1
  unfolding address_from
  address_from-Runs e a st k =
      address_given-Runs e st (m.new_actor_address a c.origin_nonce e.created) k

  resolve_to_key_addr-Keeps : (a : ℕ) (st : StateTree) → Keeps st (resolve_to_key_addr m c a st).1
  unfolding resolve_to_key_addr
  resolve_to_key_addr-Keeps a st =
      let r = actor_at m a st in
      let by_actor = key_found-Keeps st r.0 r.1 (actor_at-Keeps m a st) in
      ground (arith, Keeps-refl st, by_actor)

  new_actor_address-Runs : (e : Exec) → Runs e (new_actor_address m c e).1
  unfolding new_actor_address
  new_actor_address-Runs e =
      let r = resolve_to_key_addr m c c.origin e.tree in
      address_from-Runs e r.0 r.1 (resolve_to_key_addr-Keeps c.origin e.tree)

  sent-Runs :
      (e : Exec) (rt : Runtime) (r : Reply) (e' : Exec)
      → Runs e e'
      → Runs e (sent m c rt (r, e')).1.exec
  unfolding sent
  sent-Runs e rt (returned ret) e' k =
      Runs-trans e e' _ k (charge_dropped-Runs gas_on_actor_exec e')
  sent-Runs e rt (errored err) e' k = k
  sent-Runs e rt (panicked err) e' k = k

  module _ (nested : ℕ → ℕ → ℤ → List ℕ → Exec → Reply × Exec)
      (nested-Runs : (to method : ℕ) (v : ℤ) (params : List ℕ) (e : Exec)
        → Runs e (nested to method v params e).1) where
    send-Runs :
        (to method : ℕ) (v : ℤ) (params : List ℕ) (rt : Runtime)
        → Runs rt.exec (send m c nested to method v params rt).1.exec
    unfolding send
    send-Runs to method v params rt =
        let r = nested to method v params rt.exec in
        ground (
          arith,
          Runs-refl rt.exec,
          sent-Runs rt.exec rt r.0 r.1 (nested-Runs to method v params rt.exec),
        )

    pub perform-Runs : (o : Op) (rt : Runtime) → Runs rt.exec (perform m c nested o rt).1.exec
    unfolding perform
    perform-Runs (charging g) rt = charge-Runs g rt.exec
    perform-Runs (resolve a) rt = resolve_address-Runs m c a rt.exec
    perform-Runs (code_of a) rt = get_actor_code_cid-Runs m c a rt.exec
    perform-Runs balance rt = current_balance-Runs m c rt.exec
    perform-Runs new_address rt = new_actor_address-Runs rt.exec
    perform-Runs delete rt = delete_receiver-Runs m c rt.exec
    perform-Runs validate_any rt = validate-Runs rt.exec rt (Runs-refl rt.exec)
    perform-Runs (head_or code) rt = read_head-Runs m c code rt.exec
    perform-Runs (allow b) rt = Runs-refl rt.exec
    perform-Runs (commit old new) rt = state_commit-Runs m c old new rt.exec
    perform-Runs (validate_is l) rt =
        validate_caller_is-Runs rt.exec l (validate m c rt).0 (validate m c rt).1
          (validate-Runs rt.exec rt (Runs-refl rt.exec))
    perform-Runs (validate_type l) rt =
        validate_caller_type-Runs rt.exec l (validate m c rt).0 (validate m c rt).1
          (validate-Runs rt.exec rt (Runs-refl rt.exec))
    perform-Runs (create code a) rt = create_actor-Runs m c code a rt.exec
    perform-Runs (send_to a method v params) rt = send-Runs a method v params rt

    pub finished-Runs :
        (ret : Option (List ℕ)) (rt : Runtime) → Runs rt.exec (finished m c nested ret rt).1
    unfolding finished
    finished-Runs none rt = ground (arith, Runs-refl rt.exec)
    finished-Runs (some b) rt = ground (arith, Runs-refl rt.exec)

    go_on-Runs :
        {A : Type 0} (e : Exec) (r : Result A) (rt : Runtime) (next : A → Runtime → Reply × Exec)
        → Runs e rt.exec
        → ((a : A) (rt' : Runtime) → Runs rt'.exec (next a rt').1)
        → Runs e (go_on m c nested (r, rt) next).1
    unfolding go_on
    go_on-Runs e (raised err) rt next k h = k
    go_on-Runs e (value a) rt next k h = Runs-trans e rt.exec _ k (h a rt)

    pub run-Runs : (p : Program) (rt : Runtime) → Runs rt.exec (run m c nested p rt).1
    unfolding run
    run-Runs (finish ret) rt = finished-Runs ret rt
    run-Runs (stop code) rt = Runs-refl rt.exec
    run-Runs fail rt = Runs-refl rt.exec
    run-Runs (call o k) rt =
        go_on-Runs rt.exec (perform m c nested o rt).0 (perform m c nested o rt).1
          (λ a. run m c nested (k a)) (perform-Runs o rt) (λ a. run-Runs (k a))

    invoke_method-Runs :
        (o : Option (Message → Program)) (e : Exec) → Runs e (invoke_method m c nested o e).1
    unfolding invoke_method
    invoke_method-Runs none e = Runs-refl e
    invoke_method-Runs (some p) e =
        run-Runs (p c.vmsg) (record { exec = e; allow_internal = true; caller_validated = false })

    pub invoke-Runs :
        (o : Option (ℕ → Option (Message → Program))) (method : ℕ) (e : Exec)
        → Runs e (invoke m c nested o method e).1
    unfolding invoke
    invoke-Runs none method e = Runs-refl e
    invoke-Runs (some methods) method e = invoke_method-Runs (methods method) e
