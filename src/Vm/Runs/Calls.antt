-- ===== src/Vm/Runs/Calls.antt =====
-- The calls of the runtime of chain/vm/runtime.go leave the older layers, and stay within the gas.
use filecoin.Base.{ℕ, ◌≡◌, refl, Option, none, some, nat_eq, arith}
use filecoin.ChainTypes.Actor.{Actor}
use filecoin.StateTree.{StateTree}
use filecoin.StateTree.Keeps.{Keeps, Keeps-refl, Keeps-trans, KeepsIf}
use filecoin.StateTree.Solvent.{Solvent, Covered}
use filecoin.Vm.Gas.{GasCharge, on_create_actor, on_delete_actor}
use filecoin.Vm.Transfer.{Outcome, done, fatal, forbidden, insufficient_funds, transfer}
use filecoin.Vm.ActorError.{ExitCode}
use filecoin.Vm.Machine.{
  Machine, Lookup, resolved, no_address, failed, FoundAt, found, no_actor, unknown, lookup_failed,
  lookup_id, id_of, actor_at, set_actor_at, delete_actor_at,
}
use filecoin.Vm.Runtime.{
  Exec, Context, Result, value, raised, charge, charge_dropped, answer_as, gas_on_actor_exec,
  address_found, changed, resolve_address, code_found, get_actor_code_cid, balance_found,
  current_balance, head_found, read_head, commit_found, state_commit, set_new, create_found,
  create_actor, delete_now, burn, delete_found, delete_charged, delete_receiver,
}
use filecoin.Vm.Runs.{
  Runs, Runs-refl, Runs-trans, answer_as-Runs, charge-Runs, charge_dropped-Runs, actor_at-Keeps,
  actor_at-Covered, set_actor_at-Keeps, delete_actor_at-Keeps, transfer-Keeps,
}

-- A tree written back after more has run.
pub then_as :
    (e e' : Exec) (st : StateTree) → Runs e e' → Keeps e'.tree st → Runs e (answer_as e' st)
then_as e e' st r k = Runs-trans e e' (answer_as e' st) r (answer_as-Runs e' st k)

pub stored_dropped :
    (e : Exec) (st : StateTree) (g : GasCharge)
    → Keeps e.tree st
    → Runs e (charge_dropped g (answer_as e st))
stored_dropped e st g k =
    Runs-trans e (answer_as e st) _ (answer_as-Runs e st k) (charge_dropped-Runs g (answer_as e st))

module _ (m : Machine) (c : Context) where
  address_found-Runs : (e : Exec) (l : Lookup) → Runs e (address_found m c e l).1
  unfolding address_found
  address_found-Runs e (resolved b) = Runs-refl e
  address_found-Runs e no_address = Runs-refl e
  address_found-Runs e failed = Runs-refl e

  pub resolve_address-Runs : (a : ℕ) (e : Exec) → Runs e (resolve_address m c a e).1
  unfolding resolve_address
  resolve_address-Runs a e = address_found-Runs e (lookup_id m e.tree a)

  code_found-Runs :
      (e : Exec) (r : FoundAt) (st : StateTree)
      → Keeps e.tree st
      → Runs e (code_found m c e (r, st)).1
  unfolding code_found
  code_found-Runs e (found act) st k = answer_as-Runs e st k
  code_found-Runs e no_actor st k = answer_as-Runs e st k
  code_found-Runs e unknown st k = answer_as-Runs e st k
  code_found-Runs e lookup_failed st k = answer_as-Runs e st k

  pub get_actor_code_cid-Runs : (a : ℕ) (e : Exec) → Runs e (get_actor_code_cid m c a e).1
  unfolding get_actor_code_cid
  get_actor_code_cid-Runs a e =
      code_found-Runs e (actor_at m a e.tree).0 (actor_at m a e.tree).1 (actor_at-Keeps m a e.tree)

  balance_found-Runs :
      (e : Exec) (r : FoundAt) (st : StateTree)
      → Keeps e.tree st
      → Runs e (balance_found m c e (r, st)).1
  unfolding balance_found
  balance_found-Runs e (found act) st k = answer_as-Runs e st k
  balance_found-Runs e no_actor st k = answer_as-Runs e st k
  balance_found-Runs e unknown st k = answer_as-Runs e st k
  balance_found-Runs e lookup_failed st k = answer_as-Runs e st k

  pub current_balance-Runs : (e : Exec) → Runs e (current_balance m c e).1
  unfolding current_balance
  current_balance-Runs e =
      let r = actor_at m c.vmsg.to e.tree in
      balance_found-Runs e r.0 r.1 (actor_at-Keeps m c.vmsg.to e.tree)

  head_found-Runs :
      (code : ExitCode) (e : Exec) (r : FoundAt) (st : StateTree)
      → Keeps e.tree st
      → Runs e (head_found m c code e (r, st)).1
  unfolding head_found
  head_found-Runs code e (found act) st k = answer_as-Runs e st k
  head_found-Runs code e no_actor st k = answer_as-Runs e st k
  head_found-Runs code e unknown st k = answer_as-Runs e st k
  head_found-Runs code e lookup_failed st k = answer_as-Runs e st k

  pub read_head-Runs : (code : ExitCode) (e : Exec) → Runs e (read_head m c code e).1
  unfolding read_head
  read_head-Runs code e =
      let r = actor_at m c.vmsg.to e.tree in
      head_found-Runs code e r.0 r.1 (actor_at-Keeps m c.vmsg.to e.tree)

  commit_set :
      (e : Exec) (st : StateTree) (o : Option StateTree)
      → Keeps e.tree st
      → KeepsIf e.tree o
      → Runs e (elim o [ none ↦ answer_as e st | some st' ↦ answer_as e st' ])
  commit_set e st none k l = answer_as-Runs e st k
  commit_set e st (some st') k l = answer_as-Runs e st' l

  commit_found-Runs :
      (old new : ℕ) (e : Exec) (r : FoundAt) (st : StateTree)
      → Keeps e.tree st
      → ((act : Actor) → r ≡ found act → Solvent e.tree → Covered act)
      → Runs e (commit_found m c old new e (r, st))
  unfolding commit_found
  commit_found-Runs old new e (found act) st k h =
      let act' : Actor = record act { head = new } in
      ground (
        arith,
        answer_as-Runs e st k,
        commit_set e st (set_actor_at m c.vmsg.to act' st) k
            (set_actor_at-Keeps m c.vmsg.to act' e.tree st k (h act refl)),
      )
  commit_found-Runs old new e no_actor st k h = answer_as-Runs e st k
  commit_found-Runs old new e unknown st k h = answer_as-Runs e st k
  commit_found-Runs old new e lookup_failed st k h = answer_as-Runs e st k

  pub state_commit-Runs : (old new : ℕ) (e : Exec) → Runs e (state_commit m c old new e)
  unfolding state_commit
  state_commit-Runs old new e =
      let r = actor_at m c.vmsg.to e.tree in
      commit_found-Runs old new e r.0 r.1 (actor_at-Keeps m c.vmsg.to e.tree)
        (λ act q. actor_at-Covered m c.vmsg.to e.tree act q)

  changed-Runs : (e : Exec) (o : Option StateTree) → KeepsIf e.tree o → Runs e (changed m c e o).1
  unfolding changed
  changed-Runs e none k = Runs-refl e
  changed-Runs e (some st) k = stored_dropped e st gas_on_actor_exec k

  set_new-Runs :
      (e : Exec) (code addr : ℕ) (r : Result Unit) (e' : Exec)
      → Runs e e'
      → Runs e (set_new m c code addr (r, e')).1
  unfolding set_new
  set_new-Runs e code addr (raised err) e' k = k
  set_new-Runs e code addr (value u) e' k = Runs-trans e e' _ k (
      changed-Runs e' (set_actor_at m addr _ e'.tree)
        (set_actor_at-Keeps m addr _ e'.tree e'.tree (Keeps-refl e'.tree) (λ s. refl)))

  create_new-Runs :
      (code addr : ℕ) (e : Exec) (st : StateTree)
      → Keeps e.tree st
      → Runs e (set_new m c code addr (charge (on_create_actor m.prices) (answer_as e st))).1
  create_new-Runs code addr e st k =
      let g = on_create_actor m.prices in
      let e1 = answer_as e st in
      set_new-Runs e code addr (charge g e1).0 (charge g e1).1
        (Runs-trans e e1 _ (answer_as-Runs e st k) (charge-Runs g e1))

  create_found-Runs :
      (code addr : ℕ) (e : Exec) (r : FoundAt) (st : StateTree)
      → Keeps e.tree st
      → Runs e (create_found m c code addr e (r, st)).1
  unfolding create_found
  create_found-Runs code addr e (found act) st k = answer_as-Runs e st k
  create_found-Runs code addr e no_actor st k = create_new-Runs code addr e st k
  create_found-Runs code addr e unknown st k = create_new-Runs code addr e st k
  create_found-Runs code addr e lookup_failed st k = create_new-Runs code addr e st k

  pub create_actor-Runs : (code addr : ℕ) (e : Exec) → Runs e (create_actor m c code addr e).1
  unfolding create_actor
  create_actor-Runs code addr e =
      let r = actor_at m addr e.tree in
      ground
        (arith, Runs-refl e, create_found-Runs code addr e r.0 r.1 (actor_at-Keeps m addr e.tree))

  delete_now-Runs : (e : Exec) → Runs e (delete_now m c e).1
  unfolding delete_now
  delete_now-Runs e =
      changed-Runs e (delete_actor_at m c.vmsg.to e.tree) (delete_actor_at-Keeps m c.vmsg.to e.tree)

  burn-Runs :
      (e : Exec) (st : StateTree) (o : Outcome) → Keeps e.tree st → Runs e (burn m c e (st, o)).1
  unfolding burn
  burn-Runs e st done k =
      Runs-trans e (answer_as e st) _ (answer_as-Runs e st k) (delete_now-Runs (answer_as e st))
  burn-Runs e st fatal k = answer_as-Runs e st k
  burn-Runs e st forbidden k = answer_as-Runs e st k
  burn-Runs e st insufficient_funds k = answer_as-Runs e st k

  delete_found-Runs :
      (e : Exec) (r : FoundAt) (st : StateTree)
      → Keeps e.tree st
      → Runs e (delete_found m c e (r, st)).1
  unfolding delete_found
  delete_found-Runs e (found act) st k =
      let t = transfer (id_of m st) c.vmsg.to m.burnt_funds_address act.balance st in
      ground (
        arith,
        Runs-trans e (answer_as e st) _ (answer_as-Runs e st k) (delete_now-Runs (answer_as e st)),
        burn-Runs e t.0 t.1 (
            Keeps-trans e.tree st t.0 k
              (transfer-Keeps (id_of m st) c.vmsg.to m.burnt_funds_address act.balance st)),
      )
  delete_found-Runs e no_actor st k = answer_as-Runs e st k
  delete_found-Runs e unknown st k = answer_as-Runs e st k
  delete_found-Runs e lookup_failed st k = answer_as-Runs e st k

  delete_charged-Runs :
      (e : Exec) (r : Result Unit) (e' : Exec) → Runs e e' → Runs e (delete_charged m c (r, e')).1
  unfolding delete_charged
  delete_charged-Runs e (raised err) e' k = k
  delete_charged-Runs e (value u) e' k =
      let r = actor_at m c.vmsg.to e'.tree in
      Runs-trans e e' _ k (delete_found-Runs e' r.0 r.1 (actor_at-Keeps m c.vmsg.to e'.tree))

  pub delete_receiver-Runs : (e : Exec) → Runs e (delete_receiver m c e).1
  unfolding delete_receiver
  delete_receiver-Runs e =
      let g = on_delete_actor m.prices in
      delete_charged-Runs e (charge g e).0 (charge g e).1 (charge-Runs g e)
