-- ===== src/Vm/Depth.antt =====
-- How deep the sends of actors nest in chain/vm: every send is paid for, so that the gas bounds the
-- depth.
pub mod Calls
pub mod Programs
pub mod Sends
pub mod Bound
use filecoin.Base.{
  ℕ, ◌≡◌, refl, ◌∙◌, sym, subst, List, Bool, true, false, Option, none, some, arith, if◌then◌else◌,
}
use filecoin.Base.Int.{ℤ, pos, negsuc, ◌+ℤ◌, ◌-ℤ◌, ◌≤ℤ◌, ltb_ℤ, +ℤ_parts, -ℤ_parts}
use filecoin.StateTree.{StateTree}
use filecoin.Vm.Gas.{GasCharge, total, new_gas_charge}
use filecoin.Vm.Gas.Charge.{
  Meter, charge_gas, charge_gas_limit, charge_gas_available, charge_gas_paid,
}
use filecoin.Vm.ActorError.{ActorError, exit, fatal_error, too_deep, new_error, out_of_gas}
use filecoin.Vm.Runtime.{
  Exec, Result, value, raised, charge, charge_dropped, gas_on_actor_exec, answer_as,
}
use filecoin.ChainTypes.Message.{Message}
use filecoin.Vm.Send.{Code}
use filecoin.Vm.Program.{
  Op, charging, delete, Program, finish, stop, fail, call, Answer, Reply, returned, errored,
  panicked,
}

-- What the code of an actor charges is not below 0, and it deletes its actor at most once: `b` is
-- whether it may.
abbrev pub FairOp : Bool → Op → Type 0
FairOp b (charging g) = ltb_ℤ (total g) (pos 0) ≡ false
FairOp b delete = b ≡ true
FairOp b _ = Unit

abbrev pub may_delete : Bool → Op → Bool
may_delete b delete = false
may_delete b _ = b

abbrev pub Fair : Bool → Program → Type 0
Fair b (finish ret) = Unit
Fair b (stop c) = Unit
Fair b fail = Unit
Fair b (call o k) = FairOp b o × ((a : Answer o) → Fair (may_delete b o) (k a))

abbrev pub FairMethod : Option (Message → Program) → Type 0
FairMethod none = Unit
FairMethod (some p) = (msg : Message) → Fair true (p msg)

abbrev pub FairMethods : Option (ℕ → Option (Message → Program)) → Type 0
FairMethods none = Unit
FairMethods (some ms) = (method : ℕ) → FairMethod (ms method)

-- The methods of all builtin actors are fair.
abbrev pub FairCode : Code → Type 0
FairCode code = (n : ℕ) → FairMethods (code n)

abbrev pub Allowed : ActorError → Type 0
Allowed (exit c) = Unit
Allowed fatal_error = Unit
Allowed too_deep = ⊥

abbrev pub Fine : {A : Type 0} → Result A → Type 0
Fine (value a) = Unit
Fine (raised err) = Allowed err

abbrev pub Ended : Reply → Type 0
Ended (returned ret) = Unit
Ended (errored err) = Allowed err
Ended (panicked err) = Allowed err

-- The gas used is from `x` on and within the limit `a`.
pub record Floor (x a : ℤ) (e : Exec) : Type 0 where
  pub above : x ≤ℤ e.meter.gas_used
  pub within : e.meter.gas_used ≤ℤ a
  pub limit : e.meter.gas_available ≡ a

pub Floor-mono : (x y a : ℤ) (e : Exec) → y ≤ℤ x → Floor x a e → Floor y a e
Floor-mono x y a e h f = record {
  above = omega (arith, h, f.above);
  within = f.within;
  limit = f.limit;
}

charge_gas_above :
    (y a : ℤ) (rt : Meter) (g : GasCharge)
    → y ≤ℤ rt.gas_used +ℤ total g
    → y ≤ℤ rt.gas_available
    → y ≤ℤ (charge_gas rt g).1.gas_used
unfolding charge_gas
charge_gas_above y a rt g h l = ground (arith, h, l)

-- A charge, also one that is below 0.
pub charge_gas-Floor :
    (x y a : ℤ) (e : Exec) (g : GasCharge)
    → y ≤ℤ x +ℤ total g
    → y ≤ℤ a
    → Floor x a e
    → Floor y a (record e { meter = (charge_gas e.meter g).1 })
charge_gas-Floor x y a e g h l f =
    let within' : e.meter.gas_used ≤ℤ e.meter.gas_available =
      subst (λ b. e.meter.gas_used ≤ℤ b) (sym f.limit) f.within in
    record {
      above =
          charge_gas_above y a e.meter g
            (omega (arith, h, f.above, +ℤ_parts x (total g), +ℤ_parts e.meter.gas_used (total g)))
            (subst (λ b. y ≤ℤ b) (sym f.limit) l);
      within =
          subst (λ b. (charge_gas e.meter g).1.gas_used ≤ℤ b) f.limit
            (charge_gas_limit e.meter g within').0;
      limit = charge_gas_available e.meter g ∙ f.limit;
    }

pub same_floor : (x a : ℤ) (e : Exec) → Floor x a e → x ≤ℤ a
same_floor x a e f = omega (arith, f.above, f.within)

pub no_less : (x t : ℤ) → ltb_ℤ t (pos 0) ≡ false → x ≤ℤ x +ℤ t
no_less x t n = ground (arith, n, +ℤ_parts x t)

-- A charge that is not below 0, in a call of the runtime.
pub charge-Floor :
    (x a : ℤ) (e : Exec) (g : GasCharge)
    → ltb_ℤ (total g) (pos 0) ≡ false
    → Floor x a e
    → Fine (charge g e).0 × Floor x a (charge g e).1
unfolding charge new_error
charge-Floor x a e g n f =
    (ground arith, charge_gas-Floor x x a e g (no_less x (total g) n) (same_floor x a e f) f)

pub charge_dropped-Floor :
    (x a : ℤ) (e : Exec) → Floor x a e → Floor x a (charge_dropped gas_on_actor_exec e)
unfolding charge_dropped total new_gas_charge
charge_dropped-Floor x a e f =
    charge_gas-Floor x x a e gas_on_actor_exec (no_less x (total gas_on_actor_exec) refl)
      (same_floor x a e f) f

-- The tree does not matter.
pub on_tree : (x a : ℤ) (e : Exec) (st : StateTree) → Floor x a e → Floor x a (answer_as e st)
on_tree x a e st f = record { above = f.above; within = f.within; limit = f.limit }

-- What a charge of `t` leaves: paid, or an error.
abbrev pub Paid : ℤ → ℤ → ℤ → Result Unit → Exec → Type 0
Paid x t a (value u) e = Floor (x +ℤ t) a e
Paid x t a (raised err) e = Allowed err × Floor x a e

pub charge-Paid :
    (x a : ℤ) (e : Exec) (g : GasCharge)
    → ltb_ℤ (total g) (pos 0) ≡ false
    → Floor x a e
    → Paid x (total g) a (charge g e).0 (charge g e).1
unfolding charge new_error
charge-Paid x a e g n f = by_charge (charge_gas e.meter g).0 refl
  where
    low : Floor x a (record e { meter = (charge_gas e.meter g).1 })
    low = charge_gas-Floor x x a e g (no_less x (total g) n) (same_floor x a e f) f

    by_charge :
        (b : Bool) → (charge_gas e.meter g).0 ≡ b → Paid x (total g) a (charge g e).0 (charge g e).1
    by_charge false q = rw (charge, q) (tt, low)
    by_charge true q =
        rw (charge, q)
          (record {
            above =
                subst (λ u. x +ℤ total g ≤ℤ u) (sym (charge_gas_paid e.meter g q))
                  (omega
                    (arith, f.above, +ℤ_parts x (total g), +ℤ_parts e.meter.gas_used (total g)));
            within = low.within;
            limit = low.limit;
          })

-- The charge that comes first, if any, is not below 0.
abbrev pub FineCharge : Option GasCharge → Type 0
FineCharge none = Unit
FineCharge (some g) = ltb_ℤ (total g) (pos 0) ≡ false
