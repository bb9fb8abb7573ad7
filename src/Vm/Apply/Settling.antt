-- ===== src/Vm/Apply/Settling.antt =====
-- The end of ApplyMessage of chain/vm/vm.go: what is refunded and rewarded.
use filecoin.Base.{
  ℕ, ◌≡◌, refl, ap, ◌∙◌, subst, Bool, true, false, some, if◌then◌else◌, ◌==◌, nat_eq, arith,
}
use filecoin.Base.Int.{ℤ, pos, ◌+ℤ◌, ◌-ℤ◌, ltb_ℤ}
use filecoin.ChainTypes.Actor.{Actor}
use filecoin.ChainTypes.Message.{Message}
use filecoin.StateTree.{StateTree, snapshot}
use filecoin.StateTree.View.{view}
use filecoin.StateTree.Snapshots.{IsTree}
use filecoin.StateTree.Keeps.{Keeps, Keeps-trans, cleared-view}
use filecoin.Vm.Gas.{is_zero}
use filecoin.Vm.Transfer.{deposit_funds}
use filecoin.Vm.GasHolder.{Settled}
use filecoin.Vm.GasHolder.Settles.{
  covers_refund, left_over, minus_self, not_less, from_gas_holder-Done,
}
use filecoin.Vm.GasHolder.Steady.{from_gas_holder-Keeps}
use filecoin.Vm.Machine.{Machine, id_of}
use filecoin.Vm.Send.{cleared}
use filecoin.Vm.Apply.{ApplyRet, receipt, rewarded, refunded, settle}
use filecoin.Vm.Apply.Gas.{cost_of, gain_of, Parts}

-- The actors after refund and reward.
abbrev pub with_gas : Actor → ℤ → Actor
with_gas act amt = record act { balance = act.balance +ℤ amt }

zero_holder : (z : ℤ) → z ≡ pos 0 → is_zero z ≡ true
zero_holder z q = ground (arith, q)

pub kept_by :
    (st : StateTree) (s : Settled) (st' : StateTree) (h : Actor) (b : Bool)
    → Keeps st s.0
    → s ≡ (st', h, b)
    → Keeps st st'
kept_by st s st' h b k q = subst (λ t. Keeps st t.0) q k

module _ (m : Machine) (msg : Message) (before st : StateTree) (k : Keeps (snapshot before) st)
    (v : IsTree before) (f w : ℕ) (b c : Actor) (apart : f == w ≡ false)
    (b_there : view st f ≡ some b) (c_there : view st w ≡ some c) where
  -- The gas holder that has the cost of a message, after a snapshot: the refund and the reward
  -- reach the two actors, and the message has its receipt.
  pub settle_lem :
      (holder : Actor) (z : ℤ) (ret : ApplyRet)
      → z ≡ pos 0
      → holder.balance ≡ z +ℤ cost_of msg.gas_limit msg.gas_price
      → Parts msg.gas_limit ret.gas_used msg.gas_price
      → id_of m st msg.from ≡ some f
      → ((t : StateTree) → id_of m t m.reward_address ≡ some w)
      → (st' : StateTree) × (settle m msg holder ret st ≡ (receipt ret, st'))
        × ((j : ℕ)
            → view st' j ≡ (
                if w == j
                then some (with_gas c (gain_of msg.gas_price ret.gas_used))
                else if f == j
                then some (with_gas b (cost_of (msg.gas_limit -ℤ ret.gas_used) msg.gas_price))
                else view st j))
  unfolding settle refunded rewarded deposit_funds
  settle_lem holder z ret zero full parts from_is reward_is =
      let refund = cost_of (msg.gas_limit -ℤ ret.gas_used) msg.gas_price in
      let gain = gain_of msg.gas_price ret.gas_used in
      let cost = cost_of msg.gas_limit msg.gas_price in
      let covered = covers_refund z cost refund gain zero parts.sum parts.gain_fine in
      let h2 : Actor = record holder { balance = holder.balance -ℤ refund } in
      let left : h2.balance ≡ gain =
        ap (λ x. x -ℤ refund) full ∙ left_over z cost refund gain zero parts.sum in
      let (st2, p, after) =
        from_gas_holder-Done (id_of m st) msg.from f from_is holder refund parts.refund_fine st b
          b_there (ap (λ x. ltb_ℤ x refund) full ∙ covered) in
      let k2 =
        kept_by st _ st2 h2 true (from_gas_holder-Keeps (id_of m st) msg.from holder st refund) p in
      let (st3, q, last) =
        from_gas_holder-Done (id_of m st2) m.reward_address w (reward_is st2) h2 gain
          parts.gain_fine st2 c (after w ∙ rw apart c_there) (not_less h2.balance gain left) in
      let h3 : Actor = record h2 { balance = h2.balance -ℤ gain } in
      let k3 =
        kept_by st2 _ st3 h3 true (from_gas_holder-Keeps (id_of m st2) m.reward_address h2 st2 gain)
          q in
      let (st4, e, same) =
        cleared-view before st3
          (Keeps-trans (snapshot before) st st3 k (Keeps-trans st st2 st3 k2 k3)) v in
      (
        st4,
        ap (refunded m msg ret) p
            ∙ ap (rewarded m msg ret) q
            ∙ rw (zero_holder h3.balance (minus_self h2.balance gain left), cleared, e) refl,
        λ j.
            same j ∙ last j ∙ ap (λ o. if w == j then some (deposit_funds c gain) else o) (after j),
      )
