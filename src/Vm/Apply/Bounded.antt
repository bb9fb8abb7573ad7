-- ===== src/Vm/Apply/Bounded.antt =====
-- Every way through ApplyMessage of chain/vm/vm.go: the gas of a receipt, and that the gas holder is
-- empty at the end.
use filecoin.Base.{
  ℕ, ◌≡◌, refl, ◌∙◌, subst, List, [], ◌∷◌, Bool, true, false, Option, none, some, nat_eq, arith,
  Bool-cases, inl, inr,
}
use filecoin.Base.Lists.{length}
use filecoin.Base.Int.{ℤ, pos, ◌+ℤ◌, ◌-ℤ◌, ◌≤ℤ◌, ltb_ℤ, +ℤ_parts, -ℤ_parts}
use filecoin.ChainTypes.Actor.{Actor}
use filecoin.ChainTypes.Message.{Message}
use filecoin.StateTree.{StateTree, snapshot}
use filecoin.Vm.Gas.{GasCharge, is_zero, on_chain_return_value}
use filecoin.Vm.GasHolder.{transfer_to_gas_holder, transfer_from_gas_holder, increment_nonce}
use filecoin.Vm.GasHolder.Balances.{
  Has, to_gas_holder-Has, from_gas_holder-Has, increment_nonce-Has,
}
use filecoin.Vm.ActorError.{ActorError, ret_code}
use filecoin.Vm.Machine.{Machine, FoundAt, found, no_actor, unknown, lookup_failed, id_of}
use filecoin.Vm.Runtime.{Exec, Result, value, raised, charge}
use filecoin.Vm.Program.{Reply, returned, errored, panicked}
use filecoin.Vm.Runs.{charge-Runs}
use filecoin.Vm.Runs.Sends.{send-Runs}
use filecoin.Vm.Runs.Nested.{internal_send-Runs}
use filecoin.Vm.Send.{Code, send, internal_send}
use filecoin.Vm.Apply.{
  ApplyRet, ApplyError, wrong_gas_math, Applied, receipt, failed_with, not_below_zero, made_out,
  rewarded, refunded, settle, reverted, receipt_of, value_charged, after_send, run_message,
  nonce_raised, withdrawn, from_sender, empty_holder,
}
use filecoin.Vm.Apply.Gas.{Fits, cost_of, gain_of, Parts, split_gas-Parts}
use filecoin.Vm.Apply.Failed.{clamped_fine, clamped_within}

abbrev pub right_math : ApplyError → Bool
right_math wrong_gas_math = false
right_math _ = true

-- The gas used is not negative and within the limit; and no error says that the gas holder is not
-- empty.
abbrev pub Bounded : Message → Applied × StateTree → Type 0
Bounded msg (receipt ret, st) =
    (ltb_ℤ ret.gas_used (pos 0) ≡ false) × (ret.gas_used ≤ℤ msg.gas_limit)
Bounded msg (failed_with err, st) = right_math err ≡ true

emptied :
    (h cost refund gain : ℤ)
    → h ≡ pos 0 +ℤ cost -ℤ refund -ℤ gain
    → refund +ℤ gain ≡ cost
    → is_zero h ≡ true
emptied h cost refund gain q s = ground (
  arith,
  q,
  s,
  +ℤ_parts refund gain,
  +ℤ_parts (pos 0) cost,
  -ℤ_parts (pos 0 +ℤ cost) refund,
  -ℤ_parts (pos 0 +ℤ cost -ℤ refund) gain,
)

module _ (m : Machine) (msg : Message) (fits : Fits msg.gas_limit)
    (limited : ltb_ℤ (pos 0) msg.gas_limit ≡ true) where
  rewarded-Bounded :
      (ret : ApplyRet) (st : StateTree) (h : Actor) (b : Bool)
      → Bounded msg (receipt ret, st)
      → Has
          (pos 0
            +ℤ cost_of msg.gas_limit msg.gas_price
            -ℤ cost_of (msg.gas_limit -ℤ ret.gas_used) msg.gas_price
            -ℤ gain_of msg.gas_price ret.gas_used)
          (st, h, b)
      → Parts msg.gas_limit ret.gas_used msg.gas_price
      → Bounded msg (rewarded m msg ret (st, h, b))
  unfolding rewarded
  rewarded-Bounded ret st h false b q p = refl
  rewarded-Bounded ret st h true b q p =
      rw
        (emptied h.balance (cost_of msg.gas_limit msg.gas_price)
          (cost_of (msg.gas_limit -ℤ ret.gas_used) msg.gas_price)
          (gain_of msg.gas_price ret.gas_used) q p.sum)
        b

  refunded-Bounded :
      (ret : ApplyRet) (st : StateTree) (h : Actor) (b : Bool)
      → Bounded msg (receipt ret, st)
      → Has
          (pos 0
            +ℤ cost_of msg.gas_limit msg.gas_price
            -ℤ cost_of (msg.gas_limit -ℤ ret.gas_used) msg.gas_price)
          (st, h, b)
      → Parts msg.gas_limit ret.gas_used msg.gas_price
      → Bounded msg (refunded m msg ret (st, h, b))
  unfolding refunded
  refunded-Bounded ret st h false b q p = refl
  refunded-Bounded ret st h true b q p =
      let gain = gain_of msg.gas_price ret.gas_used in
      let s = transfer_from_gas_holder (id_of m st) m.reward_address h gain st in
      rewarded-Bounded ret s.0 s.1 s.2 b
        (subst (λ n. Has (n -ℤ gain) s) q
          (from_gas_holder-Has (id_of m st) m.reward_address h gain st))
        p

  settle-Bounded :
      (holder : Actor) (ret : ApplyRet) (st : StateTree)
      → holder.balance ≡ pos 0 +ℤ cost_of msg.gas_limit msg.gas_price
      → Bounded msg (receipt ret, st)
      → Parts msg.gas_limit ret.gas_used msg.gas_price
      → Bounded msg (settle m msg holder ret st)
  unfolding settle
  settle-Bounded holder ret st q b p =
      let refund = cost_of (msg.gas_limit -ℤ ret.gas_used) msg.gas_price in
      let s = transfer_from_gas_holder (id_of m st) msg.from holder refund st in
      refunded-Bounded ret s.0 s.1 s.2 b
        (subst (λ n. Has (n -ℤ refund) s) q
          (from_gas_holder-Has (id_of m st) msg.from holder refund st))
        p

  module _ (holder : Actor) (full : holder.balance ≡ pos 0 +ℤ cost_of msg.gas_limit msg.gas_price)
      (fine : ltb_ℤ (cost_of msg.gas_limit msg.gas_price) (pos 0) ≡ false) where
    receipt_of-Bounded :
        (ret : List ℕ) (err : Option ActorError) (e : Exec)
        → e.meter.gas_used ≤ℤ msg.gas_limit
        → Bounded msg (receipt_of m msg holder ret err e)
    unfolding receipt_of
    receipt_of-Bounded ret err e h =
        let used = not_below_zero e.meter.gas_used in
        let low = clamped_fine e.meter.gas_used in
        let high = clamped_within e.meter.gas_used msg.gas_limit h (ground (arith, limited)) in
        settle-Bounded holder (made_out ret err used) (reverted m msg (ret_code err) e.tree) full
          (low, high) (split_gas-Parts msg.gas_limit used msg.gas_price fits limited low high fine)

    value_charged-Bounded :
        (ret : List ℕ) (x : Result Unit) (e : Exec)
        → e.meter.gas_used ≤ℤ msg.gas_limit
        → Bounded msg (value_charged m msg holder ret (x, e))
    unfolding value_charged
    value_charged-Bounded ret (value u) e h = receipt_of-Bounded ret none e h
    value_charged-Bounded ret (raised err) e h = receipt_of-Bounded [] (some err) e h

    after_send-Bounded :
        (x : Reply) (e : Exec)
        → e.meter.gas_used ≤ℤ e.meter.gas_available
        → e.meter.gas_available ≡ msg.gas_limit
        → Bounded msg (after_send m msg holder (x, e))
    unfolding after_send
    after_send-Bounded (returned []) e h a =
        receipt_of-Bounded [] none e (subst (λ l. e.meter.gas_used ≤ℤ l) a h)
    after_send-Bounded (returned (y ∷ ys)) e h a =
        let g = on_chain_return_value m.prices (length (y ∷ ys)) in
        let c = charge-Runs g e in
        value_charged-Bounded (y ∷ ys) (charge g e).0 (charge g e).1 (
          subst (λ l. (charge g e).1.meter.gas_used ≤ℤ l) (c.limits.same_available ∙ a)
            (c.limits.within h))
    after_send-Bounded (errored err) e h a =
        ground (arith, receipt_of-Bounded [] (some err) e (subst (λ l. e.meter.gas_used ≤ℤ l) a h))
    after_send-Bounded (panicked err) e h a = refl

  module _ (code : Code) (depth : ℕ) (msg_gas : GasCharge) where
    run_message-Bounded :
        (holder : Actor) (st : StateTree)
        → holder.balance ≡ pos 0 +ℤ cost_of msg.gas_limit msg.gas_price
        → ltb_ℤ (cost_of msg.gas_limit msg.gas_price) (pos 0) ≡ false
        → Bounded msg (run_message m msg code depth msg_gas holder st)
    unfolding run_message
    run_message-Bounded holder st full fine =
        let nested = internal_send m code msg.from msg.nonce depth in
        let e : Exec = record {
          tree = snapshot st;
          meter = record { gas_available = msg.gas_limit; gas_used = pos 0 };
          created = 0;
        } in
        let x = send m code nested msg.from msg.nonce (some msg_gas) msg e in
        let k =
          send-Runs m code nested (internal_send-Runs m code msg.from msg.nonce depth) msg.from
            msg.nonce (some msg_gas) msg e refl in
        after_send-Bounded holder full fine x.0 x.1 (k.limits.within (ground (arith, limited)))
          k.limits.same_available

    nonce_raised-Bounded :
        (st : StateTree) (holder : Actor) (b : Bool)
        → Has (pos 0 +ℤ cost_of msg.gas_limit msg.gas_price) (st, holder, b)
        → ltb_ℤ (cost_of msg.gas_limit msg.gas_price) (pos 0) ≡ false
        → Bounded msg (nonce_raised m msg code depth msg_gas (st, holder, b))
    unfolding nonce_raised
    nonce_raised-Bounded st holder false h fine = refl
    nonce_raised-Bounded st holder true h fine = run_message-Bounded holder st h fine

    withdrawn-Bounded :
        (st : StateTree) (holder : Actor) (b : Bool)
        → Has (pos 0 +ℤ cost_of msg.gas_limit msg.gas_price) (st, holder, b)
        → (b ≡ true → ltb_ℤ (cost_of msg.gas_limit msg.gas_price) (pos 0) ≡ false)
        → Bounded msg (withdrawn m msg code depth msg_gas (st, holder, b))
    unfolding withdrawn
    withdrawn-Bounded st holder false h fine = refl
    withdrawn-Bounded st holder true h fine =
        let s = increment_nonce (id_of m st) msg.from holder st in
        nonce_raised-Bounded s.0 s.1 s.2
          (subst (λ n. Has n s) h (increment_nonce-Has (id_of m st) msg.from holder st)) (fine refl)

    begun_fine :
        (st : StateTree)
        → (transfer_to_gas_holder
            (id_of m st)
            msg.from
            empty_holder
            (cost_of msg.gas_limit msg.gas_price)
            st).2
          ≡ true
        → ltb_ℤ (cost_of msg.gas_limit msg.gas_price) (pos 0) ≡ false
    unfolding transfer_to_gas_holder
    begun_fine st q = elim (Bool-cases (ltb_ℤ (cost_of msg.gas_limit msg.gas_price) (pos 0))) [
      | inr n ↦ n
      | inl n ↦ absurd (cc (rw n at q))
    ]

    pub from_sender-Bounded :
        (penalty : ℤ) (o : FoundAt) (st : StateTree)
        → Bounded msg (from_sender m msg code depth msg_gas penalty (o, st))
    unfolding from_sender
    from_sender-Bounded penalty (found act) st =
        let cost = cost_of msg.gas_limit msg.gas_price in
        let s = transfer_to_gas_holder (id_of m st) msg.from empty_holder cost st in
        ground (
          arith,
          limited,
          withdrawn-Bounded s.0 s.1 s.2
              (to_gas_holder-Has (id_of m st) msg.from empty_holder cost st) (begun_fine st),
        )
    from_sender-Bounded penalty no_actor st = (refl, ground (arith, limited))
    from_sender-Bounded penalty unknown st = (refl, ground (arith, limited))
    from_sender-Bounded penalty lookup_failed st = refl
