-- ===== src/Vm/Depth/Bound.antt =====
-- With more depth than gas, no send of chain/vm reaches the bound on the depth of nested calls.
use filecoin.Base.{
  ℕ, zero, suc, ◌≡◌, refl, sym, subst, List, Option, none, arith, ◌==◌, Bool-cases, inl, inr,
}
use filecoin.Base.Int.{ℤ, pos, ◌+ℤ◌, ◌*ℤ◌, ◌≤ℤ◌, +ℤ_parts}
use filecoin.ChainTypes.Message.{Message}
use filecoin.StateTree.{snapshot}
use filecoin.Vm.Gas.{
  GasCharge, PricelistV0, total, Numbers, prices_v0, new_gas_charge, on_create_actor,
  on_delete_actor, on_method_invocation, is_zero,
}
use filecoin.Vm.Machine.{Machine}
use filecoin.Vm.Runtime.{Exec, answer_as}
use filecoin.Vm.Program.{Reply, returned, errored, panicked}
use filecoin.Vm.Send.{Code, send, message_to, closed, internal_send}
use filecoin.Vm.Depth.{FairCode, Ended, Floor, FineCharge}
use filecoin.Vm.Depth.Sends.{Prices, SaneEnd, send-Sane}

module _ (x a : ℤ) where
  closed-Sane :
      (before : Exec) (r : Reply) (e : Exec)
      → before.meter.gas_available ≡ a
      → Ended r
      → Floor x a e
      → SaneEnd x a (closed before (r, e))
  unfolding closed
  closed-Sane before (returned ret) e b q f =
      (q, record { above = f.above; within = f.within; limit = b })
  closed-Sane before (errored err) e b q f =
      (q, record { above = f.above; within = f.within; limit = b })
  closed-Sane before (panicked err) e b q f =
      (q, record { above = f.above; within = f.within; limit = b })

module _ (m : Machine) (code : Code) (prices : Prices m) (fair : FairCode code) (origin nonce : ℕ)
    (a : ℤ) where
  -- `a` is below the gas used and the depth.
  internal_send-Sane :
      (depth : ℕ) (x : ℤ) (from to method : ℕ) (v : ℤ) (params : List ℕ) (e : Exec)
      → a +ℤ pos 1 ≤ℤ x +ℤ pos depth
      → Floor x a e
      → SaneEnd x a (internal_send m code origin nonce depth from to method v params e)
  unfolding internal_send
  internal_send-Sane zero x from to method v params e h f =
      absurd (omega (arith, h, f.above, f.within, +ℤ_parts a (pos 1), +ℤ_parts x (pos 0)))
  internal_send-Sane (suc n) x from to method v params e h f =
      let nested = internal_send m code origin nonce n in
      let e1 = answer_as e (snapshot e.tree) in
      let msg = message_to from to method v params e in
      let r = send m code nested origin nonce none msg e1 in
      let s =
        send-Sane m code nested prices fair x a
          (λ z from' to' method' v' params' e' up g.
            internal_send-Sane n z from' to' method' v' params' e'
              (omega
                (arith, h, up, +ℤ_parts x (pos 1), +ℤ_parts x (pos (suc n)), +ℤ_parts z (pos n)))
              g)
          origin nonce none msg e1 tt refl
          (record { above = f.above; within = f.within; limit = f.limit }) in
      closed-Sane x a e r.0 r.1 f.limit s.0 s.1

module _ (n : Numbers) where
  abbrev delete_total : ℤ
  delete_total = total (on_delete_actor (prices_v0 n))

  invocation_total :
      (v : ℤ) (method : ℕ)
      → (pos 1 ≤ℤ total (on_method_invocation n (prices_v0 n) v method))
        × (pos 1 ≤ℤ total (on_method_invocation n (prices_v0 n) v method) +ℤ delete_total)
  unfolding on_method_invocation prices_v0 total on_delete_actor ◌+ℤ◌ ◌*ℤ◌ new_gas_charge
  invocation_total v method = elim (Bool-cases (method == n.method_send)) [
    | inl y ↦ rw y (elim (Bool-cases (is_zero v)) [
      | inl z ↦ rw z (omega arith, omega arith)
      | inr z ↦ rw z (omega arith, omega arith)
    ])
    | inr y ↦ rw y (elim (Bool-cases (is_zero v)) [
      | inl z ↦ rw z (omega arith, omega arith)
      | inr z ↦ rw z (omega arith, omega arith)
    ])
  ]

  create_total : pos 1 ≤ℤ total (on_create_actor (prices_v0 n))
  unfolding on_create_actor prices_v0 total ◌+ℤ◌ ◌*ℤ◌ new_gas_charge
  create_total = omega arith

-- The prices of version 0.
prices_v0-Prices : (m : Machine) → m.prices ≡ prices_v0 m.numbers → Prices m
prices_v0-Prices m q =
    let invocation =
      λ (p : PricelistV0) (v : ℤ) (method : ℕ). total (on_method_invocation m.numbers p v method) in
    record {
      create_costs =
          subst (λ p. pos 1 ≤ℤ total (on_create_actor p)) (sym q) (create_total m.numbers);
      send_costs = λ v method.
          subst (λ p. pos 1 ≤ℤ invocation p v method) (sym q)
            (invocation_total m.numbers v method).0;
      more_than_delete = λ v method.
          subst (λ p. pos 1 ≤ℤ invocation p v method +ℤ total (on_delete_actor p)) (sym q)
            (invocation_total m.numbers v method).1;
    }

-- With a depth of nested calls that makes up for the gas left, a send, as ApplyMessage makes it,
-- ends, never with the error of the bound on the depth, and the gas used is not less than before:
-- the gas runs out first. The prices are those of version 0; the builtin actors' code charges
-- nothing below 0 and deletes its actor at most once in a run.
pub send_within_depth :
    (m : Machine) (code : Code) (depth : ℕ) (g : Option GasCharge) (msg : Message) (e : Exec)
    → m.prices ≡ prices_v0 m.numbers
    → FairCode code
    → FineCharge g
    → msg.gas_limit ≡ e.meter.gas_available
    → e.meter.gas_used ≤ℤ e.meter.gas_available
    → e.meter.gas_available ≤ℤ e.meter.gas_used +ℤ pos depth
    → let nested = internal_send m code msg.from msg.nonce depth in
      let r = send m code nested msg.from msg.nonce g msg e in
      Ended r.0 × (e.meter.gas_used ≤ℤ r.1.meter.gas_used)
send_within_depth m code depth g msg e q fair fine limit within deep =
    let a = e.meter.gas_available in
    let x = e.meter.gas_used in
    let s =
      send-Sane m code (internal_send m code msg.from msg.nonce depth) (prices_v0-Prices m q) fair x
        a
        (λ z from to method v params e' up f.
          internal_send-Sane m code (prices_v0-Prices m q) fair msg.from msg.nonce a depth z from to
            method v params e'
            (omega (
              arith,
              deep,
              up,
              +ℤ_parts x (pos 1),
              +ℤ_parts x (pos depth),
              +ℤ_parts z (pos depth),
              +ℤ_parts a (pos 1),
            ))
            f)
        msg.from msg.nonce g msg e fine limit
        (record { above = omega arith; within = within; limit = refl }) in
    (s.0, s.1.above)
