-- ===== src/Vm/Depth/Sends.antt =====
-- A send within a depth of calls that exceeds the gas left never reaches the bound on the depth.
use filecoin.Base.{
  ℕ, ◌≡◌, ◌∙◌, ◌⊎◌, inl, inr, List, false, Option, none, some, arith, ◌==◌, nat_eq, Bool-cases,
}
use filecoin.Base.Int.{ℤ, pos, ◌+ℤ◌, ◌≤ℤ◌, ltb_ℤ, +ℤ_parts}
use filecoin.ChainTypes.Actor.{Actor}
use filecoin.ChainTypes.Message.{Message}
use filecoin.StateTree.{StateTree}
use filecoin.Vm.Gas.{
  GasCharge, total, on_create_actor, on_delete_actor, on_method_invocation, is_zero,
}
use filecoin.Vm.Transfer.{Outcome, done, fatal, forbidden, insufficient_funds, transfer}
use filecoin.Vm.ActorError.{ExitCode, invalid_receiver, ActorError, new_error}
use filecoin.Vm.Machine.{
  Machine, Lookup, resolved, no_address, failed, FoundAt, found, no_actor, unknown, lookup_failed,
  lookup_id, id_of, actor_at, set_actor_at, register_new_address,
}
use filecoin.Vm.Runtime.{
  Exec, Context, Result, value, raised, charge, charge_dropped, gas_on_actor_exec, answer_as,
}
use filecoin.Vm.Program.{Reply, returned, errored, panicked}
use filecoin.Vm.Send.{
  Code, Nested, make_actor, loaded, constructed, account_set, set_account, registered,
  register_charged, try_create_account_actor, ended, call_method, funds_moved, move_and_call,
  paid_for, deliver, deliver_new, to_actor, context_of, after_charge, initial_charge, send_by, send,
}
use filecoin.Vm.Depth.{
  FairCode, Allowed, Ended, Floor, Floor-mono, charge-Floor, charge_dropped-Floor, on_tree, Paid,
  charge-Paid, Fine, FineCharge,
}
use filecoin.Vm.Depth.Programs.{invoke-Sane}

-- What sends and the creation of an actor cost: something, and a send more than a deletion returns.
pub record Prices (m : Machine) : Type 0 where
  pub create_costs : pos 1 ≤ℤ total (on_create_actor m.prices)
  pub send_costs :
      (v : ℤ) (method : ℕ) → pos 1 ≤ℤ total (on_method_invocation m.numbers m.prices v method)
  pub more_than_delete :
      (v : ℤ) (method : ℕ)
      → pos 1
        ≤ℤ total (on_method_invocation m.numbers m.prices v method)
          +ℤ total (on_delete_actor m.prices)

abbrev pub SaneEnd : ℤ → ℤ → Reply × Exec → Type 0
SaneEnd x a (r, e) = Ended r × Floor x a e

abbrev FineAccount : Result Actor ⊎ ActorError → Type 0
FineAccount (inl r) = Fine r
FineAccount (inr err) = Allowed err

abbrev SaneAccount : ℤ → ℤ → (Result Actor ⊎ ActorError) × Exec → Type 0
SaneAccount x a (r, e) = FineAccount r × Floor x a e

error-Allowed : (c : ExitCode) → Allowed (new_error c)
unfolding new_error
error-Allowed c = ground arith

module _ (m : Machine) (code : Code) (nested : Nested) (prices : Prices m) (fair : FairCode code)
    (x a : ℤ)
    (nested-Sane : (z : ℤ) (from to method : ℕ) (v : ℤ) (params : List ℕ) (e : Exec)
      → x +ℤ pos 1 ≤ℤ z
      → Floor z a e
      → SaneEnd z a (nested from to method v params e)) where
  module _ (z : ℤ) (high : x +ℤ pos 1 ≤ℤ z) where
    loaded-Sane :
        (e : Exec) (r : FoundAt) (st : StateTree)
        → Floor z a e
        → SaneAccount z a (loaded m code nested e (r, st))
    unfolding loaded
    loaded-Sane e (found act) st f = (tt, on_tree z a e st f)
    loaded-Sane e no_actor st f = (tt, on_tree z a e st f)
    loaded-Sane e unknown st f = (tt, on_tree z a e st f)
    loaded-Sane e lookup_failed st f = (tt, on_tree z a e st f)

    constructed-Sane :
        (n : ℕ) (r : Reply) (e : Exec)
        → Ended r
        → Floor z a e
        → SaneAccount z a (constructed m code nested n (r, e))
    unfolding constructed
    constructed-Sane n (returned ret) e q f =
        loaded-Sane e (actor_at m n e.tree).0 (actor_at m n e.tree).1 f
    constructed-Sane n (errored err) e q f = (q, f)
    constructed-Sane n (panicked err) e q f = (q, f)

    account_set-Sane :
        (addr n : ℕ) (e : Exec) (o : Option StateTree)
        → Floor z a e
        → SaneAccount z a (account_set m code nested addr n e o)
    unfolding account_set
    account_set-Sane addr n e none f = (tt, f)
    account_set-Sane addr n e (some st) f =
        let e1 = answer_as e st in
        let r = nested m.system_address n m.constructor_method (pos 0) (m.account_params addr) e1 in
        let s =
          nested-Sane z m.system_address n m.constructor_method (pos 0) (m.account_params addr) e1
            high (on_tree z a e st f) in
        constructed-Sane n r.0 r.1 s.0 s.1

    set_account-Sane :
        (addr n : ℕ) (o : Option Actor) (e : Exec)
        → Floor z a e
        → SaneAccount z a (set_account m code nested addr n o e)
    unfolding set_account
    set_account-Sane addr n none e f = (error-Allowed invalid_receiver, f)
    set_account-Sane addr n (some act) e f =
        account_set-Sane addr n e (set_actor_at m n act e.tree) f

    registered-Sane :
        (addr : ℕ) (e : Exec) (o : Option ℕ) (st : StateTree)
        → Floor z a e
        → SaneAccount z a (registered m code nested addr e (o, st))
    unfolding registered
    registered-Sane addr e none st f = (tt, on_tree z a e st f)
    registered-Sane addr e (some n) st f =
        set_account-Sane addr n (make_actor m addr) (answer_as e st) (on_tree z a e st f)

  grown : x ≤ℤ x +ℤ pos 1
  grown = omega (arith, +ℤ_parts x (pos 1))

  register_charged-Sane :
      (addr : ℕ) (r : Result Unit) (e : Exec) (t : ℤ)
      → pos 1 ≤ℤ t
      → Paid x t a r e
      → SaneAccount x a (register_charged m code nested addr (r, e))
  unfolding register_charged
  register_charged-Sane addr (raised err) e t h p = p
  register_charged-Sane addr (value u) e t h p =
      let n = register_new_address m addr e.tree in
      let f =
        Floor-mono (x +ℤ t) (x +ℤ pos 1) a e (omega (arith, h, +ℤ_parts x t, +ℤ_parts x (pos 1)))
          p in
      let s = registered-Sane (x +ℤ pos 1) (omega arith) addr e n.0 n.1 f in
      (s.0, Floor-mono (x +ℤ pos 1) x a _ grown s.1)

  fine_of : (t : ℤ) → pos 1 ≤ℤ t → ltb_ℤ t (pos 0) ≡ false
  fine_of t h = ground (arith, h)

  try_create-Sane :
      (addr : ℕ) (e : Exec)
      → Floor x a e
      → SaneAccount x a (try_create_account_actor m code nested addr e)
  unfolding try_create_account_actor
  try_create-Sane addr e f =
      let g = on_create_actor m.prices in
      register_charged-Sane addr (charge g e).0 (charge g e).1 (total g) prices.create_costs
        (charge-Paid x a e g (fine_of (total g) prices.create_costs) f)

  module _ (c : Context) where
    module _ (t : ℤ) (one : pos 1 ≤ℤ t)
        (more : pos 1 ≤ℤ t +ℤ total (on_delete_actor m.prices)) where
      call_method-Sane :
          (act : Actor) (e : Exec)
          → Floor (x +ℤ t) a e
          → SaneEnd (x +ℤ pos 1) a (call_method m code nested c act e)
      unfolding call_method
      call_method-Sane act e f =
          let up : x +ℤ pos 1 ≤ℤ x +ℤ t = omega (arith, one, +ℤ_parts x t, +ℤ_parts x (pos 1)) in
          let low = Floor-mono (x +ℤ t) (x +ℤ pos 1) a e up f in
          elim (Bool-cases (c.vmsg.method == 0)) [
            | inl y ↦ rw y (tt, low)
            | inr n ↦ rw n (
                invoke-Sane m c (x +ℤ pos 1) (x +ℤ t) a up
                  (omega (
                    arith,
                    more,
                    +ℤ_parts x t,
                    +ℤ_parts x (pos 1),
                    +ℤ_parts t (total (on_delete_actor m.prices)),
                    +ℤ_parts (x +ℤ t) (total (on_delete_actor m.prices)),
                  ))
                  (fine_of (total (on_create_actor m.prices)) prices.create_costs)
                  (λ to. nested c.vmsg.to to)
                  (λ z to method v params e' h g. nested-Sane z c.vmsg.to to method v params e' h g)
                  (code act.code) c.vmsg.method (charge_dropped gas_on_actor_exec e) (fair act.code)
                  (charge_dropped-Floor (x +ℤ t) a e f))
          ]

      funds_moved-Sane :
          (act : Actor) (e : Exec) (st : StateTree) (o : Outcome)
          → Floor (x +ℤ t) a e
          → SaneEnd (x +ℤ pos 1) a (funds_moved m code nested c act e (st, o))
      unfolding funds_moved new_error
      funds_moved-Sane act e st o f =
          let up : x +ℤ pos 1 ≤ℤ x +ℤ t = omega (arith, one, +ℤ_parts x t, +ℤ_parts x (pos 1)) in
          let low = Floor-mono (x +ℤ t) (x +ℤ pos 1) a e up f in by_outcome o low
        where
          by_outcome :
              (o : Outcome)
              → Floor (x +ℤ pos 1) a e
              → SaneEnd (x +ℤ pos 1) a (funds_moved m code nested c act e (st, o))
          by_outcome done low = call_method-Sane act (answer_as e st) (on_tree (x +ℤ t) a e st f)
          by_outcome fatal low = (tt, on_tree (x +ℤ pos 1) a e st low)
          by_outcome forbidden low = (tt, on_tree (x +ℤ pos 1) a e st low)
          by_outcome insufficient_funds low = (tt, on_tree (x +ℤ pos 1) a e st low)

      move_and_call-Sane :
          (from : ℕ) (act : Actor) (e : Exec)
          → Floor (x +ℤ t) a e
          → SaneEnd (x +ℤ pos 1) a (move_and_call m code nested c from act e)
      unfolding move_and_call
      move_and_call-Sane from act e f =
          let s = transfer (id_of m e.tree) from c.vmsg.to c.vmsg.value e.tree in
          elim (Bool-cases (is_zero c.vmsg.value)) [
            | inl y ↦ rw y (call_method-Sane act e f)
            | inr n ↦ rw n (funds_moved-Sane act e s.0 s.1 f)
          ]

    ended-Sane :
        (r : Reply × Exec) → SaneEnd (x +ℤ pos 1) a r → SaneEnd x a (ended m code nested c r)
    unfolding ended
    ended-Sane (r, e) s =
        (s.0, charge_dropped-Floor x a e (Floor-mono (x +ℤ pos 1) x a e grown s.1))

    paid_for-Sane :
        (from : ℕ) (act : Actor) (t : ℤ) (r : Result Unit) (e : Exec)
        → pos 1 ≤ℤ t
        → pos 1 ≤ℤ t +ℤ total (on_delete_actor m.prices)
        → Paid x t a r e
        → SaneEnd x a (paid_for m code nested c from act (r, e))
    unfolding paid_for
    paid_for-Sane from act t (raised err) e one more p = p
    paid_for-Sane from act t (value u) e one more p =
        ended-Sane (move_and_call m code nested c from act e)
          (move_and_call-Sane t one more from act e p)

    deliver-Sane :
        (from : ℕ) (act : Actor) (e : Exec)
        → Floor x a e
        → SaneEnd x a (deliver m code nested c from act e)
    unfolding deliver
    deliver-Sane from act e f =
        let g = on_method_invocation m.numbers m.prices c.vmsg.value c.vmsg.method in
        let one = prices.send_costs c.vmsg.value c.vmsg.method in
        paid_for-Sane from act (total g) (charge g e).0 (charge g e).1 one
          (prices.more_than_delete c.vmsg.value c.vmsg.method)
          (charge-Paid x a e g (fine_of (total g) one) f)

    deliver_new-Sane :
        (from : ℕ) (r : Result Actor ⊎ ActorError) (e : Exec)
        → FineAccount r
        → Floor x a e
        → SaneEnd x a (deliver_new m code nested c from (r, e))
    unfolding deliver_new
    deliver_new-Sane from (inl (value act)) e q f = deliver-Sane from act e f
    deliver_new-Sane from (inl (raised err)) e q f = (q, f)
    deliver_new-Sane from (inr err) e q f = (q, f)

    create_then-Sane :
        (from : ℕ) (e : Exec) (st : StateTree)
        → Floor x a e
        → SaneEnd x a (
            deliver_new m code nested c from
              (try_create_account_actor m code nested c.vmsg.to (answer_as e st)))
    create_then-Sane from e st f =
        let r = try_create_account_actor m code nested c.vmsg.to (answer_as e st) in
        let s = try_create-Sane c.vmsg.to (answer_as e st) (on_tree x a e st f) in
        deliver_new-Sane from r.0 r.1 s.0 s.1

    to_actor-Sane :
        (from : ℕ) (e : Exec) (r : FoundAt) (st : StateTree)
        → Floor x a e
        → SaneEnd x a (to_actor m code nested c from e (r, st))
    unfolding to_actor
    to_actor-Sane from e (found act) st f =
        deliver-Sane from act (answer_as e st) (on_tree x a e st f)
    to_actor-Sane from e lookup_failed st f = (tt, on_tree x a e st f)
    to_actor-Sane from e no_actor st f = create_then-Sane from e st f
    to_actor-Sane from e unknown st f = create_then-Sane from e st f

    after_charge-Sane :
        (from : ℕ) (r : Result Unit) (e : Exec)
        → Fine r
        → Floor x a e
        → SaneEnd x a (after_charge m code nested c from (r, e))
    unfolding after_charge
    after_charge-Sane from (raised err) e q f = (q, f)
    after_charge-Sane from (value u) e q f =
        let e1 = charge_dropped gas_on_actor_exec e in
        let r = actor_at m c.vmsg.to e1.tree in
        to_actor-Sane from e1 r.0 r.1 (charge_dropped-Floor x a e f)

  initial_charge-Sane :
      (g : Option GasCharge) (e : Exec)
      → FineCharge g
      → Floor x a e
      → Fine (initial_charge m code nested g e).0 × Floor x a (initial_charge m code nested g e).1
  initial_charge-Sane none e q f = (tt, f)
  initial_charge-Sane (some g) e q f = charge-Floor x a e g q f

  send_by-Sane :
      (origin nonce : ℕ) (g : Option GasCharge) (msg : Message) (e : Exec) (l : Lookup)
      → FineCharge g
      → Floor x a e
      → SaneEnd x a (send_by m code nested origin nonce g msg e l)
  unfolding send_by
  send_by-Sane origin nonce g msg e (resolved n) q f =
      let r = initial_charge m code nested g e in
      let s = initial_charge-Sane g e q f in
      after_charge-Sane (context_of origin nonce msg n) msg.from r.0 r.1 s.0 s.1
  send_by-Sane origin nonce g msg e no_address q f = (error-Allowed invalid_receiver, f)
  send_by-Sane origin nonce g msg e failed q f = (tt, f)

  pub send-Sane :
      (origin nonce : ℕ) (g : Option GasCharge) (msg : Message) (e : Exec)
      → FineCharge g
      → msg.gas_limit ≡ e.meter.gas_available
      → Floor x a e
      → SaneEnd x a (send m code nested origin nonce g msg e)
  unfolding send
  send-Sane origin nonce g msg e q h f =
      let e1 : Exec = record e { meter = record e.meter { gas_available = msg.gas_limit } } in
      send_by-Sane origin nonce g msg e1 (lookup_id m e.tree msg.from) q
        (record { above = f.above; within = f.within; limit = h ∙ f.limit })
