-- ===== src/Vm/Depth/Programs.antt =====
-- A program of an actor ends with an error of the code's own and uses no less gas, but for one
-- deletion, if the sends that it makes do.
use filecoin.Base.{
  ℕ, ◌≡◌, List, Bool, true, false, Option, none, some, arith, if◌then◌else◌, Bool-cases, inl, inr,
}
use filecoin.Base.Int.{ℤ, pos, ◌+ℤ◌, ◌≤ℤ◌, ltb_ℤ}
use filecoin.ChainTypes.Message.{Message}
use filecoin.StateTree.{StateTree}
use filecoin.Vm.Gas.{total, on_create_actor, on_delete_actor}
use filecoin.Vm.ActorError.{new_error, illegal_actor, invalid_method, absorb}
use filecoin.Vm.Machine.{Machine}
use filecoin.Vm.Runtime.{Exec, Runtime, Context, Result, value, raised, get_actor_code_cid}
use filecoin.Vm.Program.{
  Op, charging, resolve, code_of, balance, new_address, delete, validate_any, head_or, allow,
  commit, validate_is, validate_type, create, send_to, Program, finish, stop, fail, call, Reply,
  returned, errored, panicked, validate, validate_caller_is, check_code, validate_caller_type,
  listed_code, resolve_to_key_addr, address_given, address_from, new_actor_address, sent, send,
  perform, finished, go_on, run, invoke_method, invoke,
}
use filecoin.Vm.Depth.{
  FairOp, may_delete, Fair, FairMethod, FairMethods, Fine, Ended, Floor, Floor-mono, charge-Floor,
  charge_dropped-Floor, on_tree, same_floor,
}
use filecoin.Vm.Depth.Calls.{
  resolve_address-Sane, get_actor_code_cid-Sane, current_balance-Sane, read_head-Sane,
  state_commit-Floor, create_actor-Sane, delete_receiver-Sane, new_error-Allowed,
}

module _ (m : Machine) (c : Context) where
  module _ (x a : ℤ) where
    abbrev SaneAt : {A : Type 0} → Result A × Runtime → Type 0
    SaneAt (r, rt) = Fine r × Floor x a rt.exec

    validate-Sane : (rt : Runtime) → Floor x a rt.exec → SaneAt (validate m c rt)
    unfolding validate new_error
    validate-Sane rt f = elim (Bool-cases rt.caller_validated) [
      | inl y ↦ rw y (tt, f)
      | inr n ↦ rw n (tt, f)
    ]

    listed_code-Fine : (o : Option ℕ) (l : List ℕ) → Fine (listed_code o l)
    unfolding new_error
    listed_code-Fine none l = tt
    listed_code-Fine (some code) l = ground arith

    validate_caller_is-Sane :
        (l : List ℕ) (r : Result Unit) (rt : Runtime)
        → Fine r
        → Floor x a rt.exec
        → SaneAt (validate_caller_is m c l (r, rt))
    unfolding validate_caller_is new_error
    validate_caller_is-Sane l (raised err) rt q f = (q, f)
    validate_caller_is-Sane l (value u) rt q f = (ground arith, f)

    check_code-Sane :
        (l : List ℕ) (rt : Runtime) (r : Result (Option ℕ)) (e : Exec)
        → Fine r
        → Floor x a e
        → SaneAt (check_code m c l rt (r, e))
    unfolding check_code
    check_code-Sane l rt (raised err) e q f = (q, f)
    check_code-Sane l rt (value o) e q f = (listed_code-Fine o l, f)

    validate_caller_type-Sane :
        (l : List ℕ) (r : Result Unit) (rt : Runtime)
        → Fine r
        → Floor x a rt.exec
        → SaneAt (validate_caller_type m c l (r, rt))
    unfolding validate_caller_type
    validate_caller_type-Sane l (raised err) rt q f = (q, f)
    validate_caller_type-Sane l (value u) rt q f =
        let s = get_actor_code_cid-Sane m c x a c.vmsg.from rt.exec f in
        check_code-Sane l rt (get_actor_code_cid m c c.vmsg.from rt.exec).0
          (get_actor_code_cid m c c.vmsg.from rt.exec).1 s.0 s.1

    address_given-Sane :
        (e : Exec) (st : StateTree) (o : Option ℕ)
        → Floor x a e
        → Fine (address_given m c e st o).0 × Floor x a (address_given m c e st o).1
    unfolding address_given
    address_given-Sane e st none f = (tt, on_tree x a e st f)
    address_given-Sane e st (some b) f =
        (tt, record { above = f.above; within = f.within; limit = f.limit })

    new_actor_address-Sane :
        (e : Exec)
        → Floor x a e
        → Fine (new_actor_address m c e).0 × Floor x a (new_actor_address m c e).1
    unfolding new_actor_address address_from
    new_actor_address-Sane e f =
        let r = resolve_to_key_addr m c c.origin e.tree in
        address_given-Sane e r.1 (m.new_actor_address r.0 c.origin_nonce e.created) f

    sent-Sane :
        (rt : Runtime) (r : Reply) (e : Exec) → Ended r → Floor x a e → SaneAt (sent m c rt (r, e))
    unfolding sent
    sent-Sane rt (returned ret) e q f = (tt, charge_dropped-Floor x a e f)
    sent-Sane rt (errored err) e q f = (ground (arith, q), f)
    sent-Sane rt (panicked err) e q f = (q, f)

  module _ (x y a : ℤ) (lower : x ≤ℤ y) (deletes : x ≤ℤ y +ℤ total (on_delete_actor m.prices))
      (create_fine : ltb_ℤ (total (on_create_actor m.prices)) (pos 0) ≡ false)
      (nested : ℕ → ℕ → ℤ → List ℕ → Exec → Reply × Exec)
      (nested-Sane : (z : ℤ) (to method : ℕ) (v : ℤ) (params : List ℕ) (e : Exec)
        → x ≤ℤ z
        → Floor z a e
        → Ended (nested to method v params e).0 × Floor z a (nested to method v params e).1) where
    -- the least gas used, before the deletion and after it
    abbrev least : Bool → ℤ
    least b = if b then y else x

    least_low : (b : Bool) → x ≤ℤ least b
    least_low true = lower
    least_low false = omega arith

    send-Sane :
        (b : Bool) (to method : ℕ) (v : ℤ) (params : List ℕ) (rt : Runtime)
        → Floor (least b) a rt.exec
        → SaneAt (least b) a (send m c nested to method v params rt)
    unfolding send
    send-Sane b to method v params rt f =
        let r = nested to method v params rt.exec in
        let s = nested-Sane (least b) to method v params rt.exec (least_low b) f in
        ground (
          arith,
          f,
          new_error-Allowed m c (least b) a illegal_actor,
          sent-Sane (least b) a rt r.0 r.1 s.0 s.1,
        )

    deleted-Sane :
        (b : Bool) (rt : Runtime)
        → b ≡ true
        → Floor (least b) a rt.exec
        → SaneAt x a (perform m c nested delete rt)
    unfolding perform
    deleted-Sane true rt q f =
        let low : x ≤ℤ a = omega (arith, lower, same_floor y a rt.exec f) in
        delete_receiver-Sane m c x a y rt.exec deletes low f
    deleted-Sane false rt q f = absurd (cc)

    perform-Sane :
        (b : Bool) (o : Op) (rt : Runtime)
        → FairOp b o
        → Floor (least b) a rt.exec
        → SaneAt (least (may_delete b o)) a (perform m c nested o rt)
    unfolding perform
    perform-Sane b (charging g) rt q f = charge-Floor (least b) a rt.exec g q f
    perform-Sane b (resolve n) rt q f = resolve_address-Sane m c (least b) a n rt.exec f
    perform-Sane b (code_of n) rt q f = get_actor_code_cid-Sane m c (least b) a n rt.exec f
    perform-Sane b balance rt q f = current_balance-Sane m c (least b) a rt.exec f
    perform-Sane b new_address rt q f = new_actor_address-Sane (least b) a rt.exec f
    perform-Sane b delete rt q f = deleted-Sane b rt q f
    perform-Sane b validate_any rt q f = validate-Sane (least b) a rt f
    perform-Sane b (head_or code) rt q f = read_head-Sane m c (least b) a code rt.exec f
    perform-Sane b (allow w) rt q f = (tt, f)
    perform-Sane b (commit old new) rt q f =
        (tt, state_commit-Floor m c (least b) a old new rt.exec f)
    perform-Sane b (validate_is l) rt q f =
        let s = validate-Sane (least b) a rt f in
        validate_caller_is-Sane (least b) a l (validate m c rt).0 (validate m c rt).1 s.0 s.1
    perform-Sane b (validate_type l) rt q f =
        let s = validate-Sane (least b) a rt f in
        validate_caller_type-Sane (least b) a l (validate m c rt).0 (validate m c rt).1 s.0 s.1
    perform-Sane b (create code n) rt q f =
        create_actor-Sane m c (least b) a create_fine code n rt.exec f
    perform-Sane b (send_to to method v params) rt q f = send-Sane b to method v params rt f

    -- The end of a program.
    abbrev SaneEnd : Reply × Exec → Type 0
    SaneEnd (r, e) = Ended r × Floor x a e

    finished-Sane :
        (ret : Option (List ℕ)) (rt : Runtime)
        → Floor x a rt.exec
        → SaneEnd (finished m c nested ret rt)
    unfolding finished new_error absorb
    finished-Sane none rt f = elim (Bool-cases rt.caller_validated) [
      | inl z ↦ rw z (tt, f)
      | inr n ↦ rw n (tt, f)
    ]
    finished-Sane (some bytes) rt f = elim (Bool-cases rt.caller_validated) [
      | inl z ↦ rw z (tt, f)
      | inr n ↦ rw n (tt, f)
    ]

    go_on-Sane :
        {A : Type 0} (b : Bool) (r : Result A) (rt : Runtime) (next : A → Runtime → Reply × Exec)
        → Fine r
        → Floor (least b) a rt.exec
        → ((n : A) (rt' : Runtime) → Floor (least b) a rt'.exec → SaneEnd (next n rt'))
        → SaneEnd (go_on m c nested (r, rt) next)
    unfolding go_on
    go_on-Sane b (raised err) rt next q f h = (q, Floor-mono (least b) x a rt.exec (least_low b) f)
    go_on-Sane b (value n) rt next q f h = h n rt f

    pub run-Sane :
        (b : Bool) (p : Program) (rt : Runtime)
        → Fair b p
        → Floor (least b) a rt.exec
        → SaneEnd (run m c nested p rt)
    unfolding run
    run-Sane b (finish ret) rt q f =
        finished-Sane ret rt (Floor-mono (least b) x a rt.exec (least_low b) f)
    run-Sane b (stop code) rt q f =
        (new_error-Allowed m c x a code, Floor-mono (least b) x a rt.exec (least_low b) f)
    run-Sane b fail rt q f = (tt, Floor-mono (least b) x a rt.exec (least_low b) f)
    run-Sane b (call o k) rt q f =
        let s = perform-Sane b o rt q.0 f in
        go_on-Sane (may_delete b o) (perform m c nested o rt).0 (perform m c nested o rt).1
          (λ n. run m c nested (k n)) s.0 s.1
          (λ n rt' g. run-Sane (may_delete b o) (k n) rt' (q.1 n) g)

    invoke_method-Sane :
        (o : Option (Message → Program)) (e : Exec)
        → FairMethod o
        → Floor y a e
        → SaneEnd (invoke_method m c nested o e)
    unfolding invoke_method
    invoke_method-Sane none e q f =
        (new_error-Allowed m c x a invalid_method, Floor-mono y x a e lower f)
    invoke_method-Sane (some p) e q f =
        run-Sane true (p c.vmsg)
          (record { exec = e; allow_internal = true; caller_validated = false }) (q c.vmsg) f

    pub invoke-Sane :
        (o : Option (ℕ → Option (Message → Program))) (method : ℕ) (e : Exec)
        → FairMethods o
        → Floor y a e
        → SaneEnd (invoke m c nested o method e)
    unfolding invoke
    invoke-Sane none method e q f =
        (new_error-Allowed m c x a illegal_actor, Floor-mono y x a e lower f)
    invoke-Sane (some ms) method e q f = invoke_method-Sane (ms method) e (q method) f
