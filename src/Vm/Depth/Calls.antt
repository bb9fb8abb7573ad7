-- ===== src/Vm/Depth/Calls.antt =====
-- The calls of the runtime of chain/vm/runtime.go do not lessen the gas used, but for a deletion, and
-- end with errors of the code's own.
use filecoin.Base.{ℕ, ◌≡◌, false, Option, none, some, nat_eq, arith, Bool-cases, inl, inr}
use filecoin.Base.Int.{ℤ, pos, ◌+ℤ◌, ◌≤ℤ◌, ltb_ℤ}
use filecoin.StateTree.{StateTree}
use filecoin.Vm.Gas.{GasCharge, total, on_create_actor, on_delete_actor, is_zero}
use filecoin.Vm.Transfer.{Outcome, done, fatal, forbidden, insufficient_funds, transfer}
use filecoin.Vm.ActorError.{ExitCode, new_error, illegal_argument, illegal_actor}
use filecoin.Vm.Machine.{
  Machine, Lookup, resolved, no_address, failed, FoundAt, found, no_actor, unknown, lookup_failed,
  lookup_id, id_of, actor_at, set_actor_at, delete_actor_at,
}
use filecoin.Vm.Runtime.{
  Exec, Context, Result, value, raised, charge, answer_as, address_found, resolve_address,
  code_found, get_actor_code_cid, balance_found, current_balance, head_found, read_head,
  commit_found, state_commit, changed, set_new, create_found, create_actor, delete_now, burn,
  delete_found, delete_charged, delete_receiver,
}
use filecoin.Vm.Depth.{
  Allowed, Fine, Floor, charge-Floor, charge_dropped-Floor, charge_gas-Floor, on_tree,
}

module _ (m : Machine) (c : Context) (x a : ℤ) where
  -- The end of a call.
  abbrev pub Sane : {A : Type 0} → Result A × Exec → Type 0
  Sane (r, e) = Fine r × Floor x a e

  address_found-Sane : (e : Exec) (l : Lookup) → Floor x a e → Sane (address_found m c e l)
  unfolding address_found
  address_found-Sane e (resolved b) f = (tt, f)
  address_found-Sane e no_address f = (tt, f)
  address_found-Sane e failed f = (tt, f)

  pub resolve_address-Sane : (b : ℕ) (e : Exec) → Floor x a e → Sane (resolve_address m c b e)
  unfolding resolve_address
  resolve_address-Sane b e f = address_found-Sane e (lookup_id m e.tree b) f

  code_found-Sane :
      (e : Exec) (r : FoundAt) (st : StateTree) → Floor x a e → Sane (code_found m c e (r, st))
  unfolding code_found
  code_found-Sane e (found act) st f = (tt, on_tree x a e st f)
  code_found-Sane e no_actor st f = (tt, on_tree x a e st f)
  code_found-Sane e unknown st f = (tt, on_tree x a e st f)
  code_found-Sane e lookup_failed st f = (tt, on_tree x a e st f)

  pub get_actor_code_cid-Sane : (b : ℕ) (e : Exec) → Floor x a e → Sane (get_actor_code_cid m c b e)
  unfolding get_actor_code_cid
  get_actor_code_cid-Sane b e f =
      code_found-Sane e (actor_at m b e.tree).0 (actor_at m b e.tree).1 f

  balance_found-Sane :
      (e : Exec) (r : FoundAt) (st : StateTree) → Floor x a e → Sane (balance_found m c e (r, st))
  unfolding balance_found new_error
  balance_found-Sane e (found act) st f = (tt, on_tree x a e st f)
  balance_found-Sane e no_actor st f = (tt, on_tree x a e st f)
  balance_found-Sane e unknown st f = (tt, on_tree x a e st f)
  balance_found-Sane e lookup_failed st f = (tt, on_tree x a e st f)

  pub current_balance-Sane : (e : Exec) → Floor x a e → Sane (current_balance m c e)
  unfolding current_balance
  current_balance-Sane e f =
      balance_found-Sane e (actor_at m c.vmsg.to e.tree).0 (actor_at m c.vmsg.to e.tree).1 f

  pub new_error-Allowed : (code : ExitCode) → Allowed (new_error code)
  unfolding new_error
  new_error-Allowed code = ground arith

  head_found-Sane :
      (code : ExitCode) (e : Exec) (r : FoundAt) (st : StateTree)
      → Floor x a e
      → Sane (head_found m c code e (r, st))
  unfolding head_found
  head_found-Sane code e (found act) st f = (tt, on_tree x a e st f)
  head_found-Sane code e no_actor st f = (new_error-Allowed code, on_tree x a e st f)
  head_found-Sane code e unknown st f = (new_error-Allowed code, on_tree x a e st f)
  head_found-Sane code e lookup_failed st f = (new_error-Allowed code, on_tree x a e st f)

  pub read_head-Sane : (code : ExitCode) (e : Exec) → Floor x a e → Sane (read_head m c code e)
  unfolding read_head
  read_head-Sane code e f =
      head_found-Sane code e (actor_at m c.vmsg.to e.tree).0 (actor_at m c.vmsg.to e.tree).1 f

  commit_set-Floor :
      (e : Exec) (st : StateTree) (o : Option StateTree)
      → Floor x a e
      → Floor x a (elim o [ none ↦ answer_as e st | some st' ↦ answer_as e st' ])
  commit_set-Floor e st none f = on_tree x a e st f
  commit_set-Floor e st (some st') f = on_tree x a e st' f

  commit_found-Floor :
      (old new : ℕ) (e : Exec) (r : FoundAt) (st : StateTree)
      → Floor x a e
      → Floor x a (commit_found m c old new e (r, st))
  unfolding commit_found
  commit_found-Floor old new e (found act) st f = ground (
    arith,
    on_tree x a e st f,
    commit_set-Floor e st (set_actor_at m c.vmsg.to (record act { head = new }) st) f,
  )
  commit_found-Floor old new e no_actor st f = on_tree x a e st f
  commit_found-Floor old new e unknown st f = on_tree x a e st f
  commit_found-Floor old new e lookup_failed st f = on_tree x a e st f

  pub state_commit-Floor :
      (old new : ℕ) (e : Exec) → Floor x a e → Floor x a (state_commit m c old new e)
  unfolding state_commit
  state_commit-Floor old new e f =
      commit_found-Floor old new e (actor_at m c.vmsg.to e.tree).0 (actor_at m c.vmsg.to e.tree).1 f

  changed-Sane : (e : Exec) (o : Option StateTree) → Floor x a e → Sane (changed m c e o)
  unfolding changed
  changed-Sane e none f = (tt, f)
  changed-Sane e (some st) f = (tt, charge_dropped-Floor x a (answer_as e st) (on_tree x a e st f))

  set_new-Sane :
      (code addr : ℕ) (r : Result Unit) (e : Exec)
      → Fine r
      → Floor x a e
      → Sane (set_new m c code addr (r, e))
  unfolding set_new
  set_new-Sane code addr (raised err) e q f = (q, f)
  set_new-Sane code addr (value u) e q f = changed-Sane e (set_actor_at m addr _ e.tree) f

  module _ (create_fine : ltb_ℤ (total (on_create_actor m.prices)) (pos 0) ≡ false) where
    create_new-Sane :
        (code addr : ℕ) (e : Exec) (st : StateTree)
        → Floor x a e
        → Sane (set_new m c code addr (charge (on_create_actor m.prices) (answer_as e st)))
    create_new-Sane code addr e st f =
        let g = on_create_actor m.prices in
        let r = charge-Floor x a (answer_as e st) g create_fine (on_tree x a e st f) in
        set_new-Sane code addr (charge g (answer_as e st)).0 (charge g (answer_as e st)).1 r.0 r.1

    create_found-Sane :
        (code addr : ℕ) (e : Exec) (r : FoundAt) (st : StateTree)
        → Floor x a e
        → Sane (create_found m c code addr e (r, st))
    unfolding create_found
    create_found-Sane code addr e (found act) st f =
        (new_error-Allowed illegal_argument, on_tree x a e st f)
    create_found-Sane code addr e no_actor st f = create_new-Sane code addr e st f
    create_found-Sane code addr e unknown st f = create_new-Sane code addr e st f
    create_found-Sane code addr e lookup_failed st f = create_new-Sane code addr e st f

    pub create_actor-Sane :
        (code addr : ℕ) (e : Exec) → Floor x a e → Sane (create_actor m c code addr e)
    unfolding create_actor
    create_actor-Sane code addr e f =
        let go =
          create_found-Sane code addr e (actor_at m addr e.tree).0 (actor_at m addr e.tree).1 f in
        let no = new_error-Allowed illegal_argument in
        elim (Bool-cases (m.is_builtin code)) [
          | inr n ↦ rw n (no, f)
          | inl y ↦
              rw y
                (elim (Bool-cases (m.is_singleton code)) [ inl z ↦ rw z (no, f) | inr n ↦ rw n go ])
        ]

  delete_now-Sane : (e : Exec) → Floor x a e → Sane (delete_now m c e)
  unfolding delete_now
  delete_now-Sane e f = changed-Sane e (delete_actor_at m c.vmsg.to e.tree) f

  burn-Sane : (e : Exec) (st : StateTree) (o : Outcome) → Floor x a e → Sane (burn m c e (st, o))
  unfolding burn
  burn-Sane e st done f = delete_now-Sane (answer_as e st) (on_tree x a e st f)
  burn-Sane e st fatal f = (tt, on_tree x a e st f)
  burn-Sane e st forbidden f = (tt, on_tree x a e st f)
  burn-Sane e st insufficient_funds f = (tt, on_tree x a e st f)

  delete_found-Sane :
      (e : Exec) (r : FoundAt) (st : StateTree) → Floor x a e → Sane (delete_found m c e (r, st))
  unfolding delete_found
  delete_found-Sane e (found act) st f =
      let t = transfer (id_of m st) c.vmsg.to m.burnt_funds_address act.balance st in
      elim (Bool-cases (is_zero act.balance)) [
        | inl y ↦ rw y (delete_now-Sane (answer_as e st) (on_tree x a e st f))
        | inr n ↦ rw n (burn-Sane e t.0 t.1 f)
      ]
  delete_found-Sane e no_actor st f = (new_error-Allowed illegal_actor, on_tree x a e st f)
  delete_found-Sane e unknown st f = (new_error-Allowed illegal_actor, on_tree x a e st f)
  delete_found-Sane e lookup_failed st f = (tt, on_tree x a e st f)

  delete_charged-Sane :
      (r : Result Unit) (e : Exec) → Fine r → Floor x a e → Sane (delete_charged m c (r, e))
  unfolding delete_charged
  delete_charged-Sane (raised err) e q f = (q, f)
  delete_charged-Sane (value u) e q f =
      delete_found-Sane e (actor_at m c.vmsg.to e.tree).0 (actor_at m c.vmsg.to e.tree).1 f

  charge-Fine : (g : GasCharge) (e : Exec) → Fine (charge g e).0
  unfolding charge new_error
  charge-Fine g e = ground arith

  -- A deletion gives gas back: `y` is the gas used before at least.
  pub delete_receiver-Sane :
      (y : ℤ) (e : Exec)
      → x ≤ℤ y +ℤ total (on_delete_actor m.prices)
      → x ≤ℤ a
      → Floor y a e
      → Sane (delete_receiver m c e)
  unfolding delete_receiver charge
  delete_receiver-Sane y e h l f =
      let g = on_delete_actor m.prices in
      delete_charged-Sane (charge g e).0 (charge g e).1 (charge-Fine g e)
        (charge_gas-Floor y x a e g h l f)
