-- ===== src/Vm/Apply/Failed/Steps.antt =====
-- A message from its send to its receipt, by the steps of ApplyMessage of chain/vm/vm.go.
use filecoin.Base.{
  ℕ, ◌≡◌, sym, ◌∙◌, subst, inl, inr, List, [], ◌∷◌, true, false, Option, none, some, nat_eq, arith,
  Bool-cases,
}
use filecoin.Base.Lists.{length}
use filecoin.Base.Int.{pos, ◌+ℤ◌, ◌≤ℤ◌, ltb_ℤ}
use filecoin.ChainTypes.Actor.{Actor}
use filecoin.ChainTypes.Message.{Message}
use filecoin.StateTree.{StateTree, snapshot, revert}
use filecoin.StateTree.Snapshots.{IsTree}
use filecoin.StateTree.Keeps.{Keeps, Keeps-trans, revert-Keeps, revert-view}
use filecoin.Vm.Gas.{on_chain_return_value}
use filecoin.Vm.ActorError.{is_ok, ActorError, ret_code}
use filecoin.Vm.Machine.{Machine}
use filecoin.Vm.Machine.Lookups.{Stands}
use filecoin.Vm.Runtime.{Exec, Result, value, raised, charge}
use filecoin.Vm.Program.{Reply, returned, errored, panicked}
use filecoin.Vm.Runs.{charge-Runs}
use filecoin.Vm.Apply.{
  Applied, not_below_zero, reverted, receipt_of, value_charged, after_send, made_out,
}
use filecoin.Vm.Apply.Gas.{Fits, cost_of, split_gas-Parts}
use filecoin.Vm.Apply.Failed.{
  Rewarding, clamped_fine, clamped_within, FailsFine, settle_ok, Begun, failed_receipt,
}

module _ (m : Machine) (msg : Message) (st : StateTree) (reward : Actor) (v : IsTree st)
    (r : Rewarding m st reward) (fits : Fits msg.gas_limit)
    (limited : ltb_ℤ (pos 0) msg.gas_limit ≡ true) where
  abbrev Fine : Applied × StateTree → Type 0
  Fine = FailsFine m msg st reward

  module _ (act : Actor) (sender : Stands m msg.from st act) (known : act.code ≡ m.account_code)
      (fine : ltb_ℤ (cost_of msg.gas_limit msg.gas_price) (pos 0) ≡ false) (s : StateTree)
      (b : Begun m msg st reward v r fits limited act sender s) (holder : Actor)
      (full : holder.balance ≡ pos 0 +ℤ cost_of msg.gas_limit msg.gas_price) where
    receipt_of-Fine :
        (ret : List ℕ) (err : Option ActorError) (e : Exec)
        → Keeps (snapshot s) e.tree
        → e.meter.gas_used ≤ℤ msg.gas_limit
        → is_ok (ret_code err) ≡ false
        → Fine (receipt_of m msg holder ret err e)
    unfolding receipt_of reverted
    receipt_of-Fine ret err e k h c =
        let used = not_below_zero e.meter.gas_used in
        let high = clamped_within e.meter.gas_used msg.gas_limit h (ground (arith, limited)) in
        rw c (
          failed_receipt m msg st reward v r fits limited act sender known fine s b holder full
            (made_out ret err used) (revert e.tree)
            (Keeps-trans (snapshot s) e.tree (revert e.tree) k (revert-Keeps e.tree))
            (λ j. revert-view s e.tree j k)
            (split_gas-Parts msg.gas_limit used msg.gas_price fits limited
              (clamped_fine e.meter.gas_used) high fine)
            (clamped_fine e.meter.gas_used) high)

    ok_receipt :
        (ret : List ℕ) (err : Option ActorError) (e : Exec)
        → is_ok (ret_code err) ≡ true
        → Fine (receipt_of m msg holder ret err e)
    unfolding receipt_of
    ok_receipt ret err e c =
        settle_ok m msg st reward holder (made_out ret err (not_below_zero e.meter.gas_used))
          (reverted m msg (ret_code err) e.tree) c

    any_receipt :
        (ret : List ℕ) (err : Option ActorError) (e : Exec)
        → Keeps (snapshot s) e.tree
        → e.meter.gas_used ≤ℤ msg.gas_limit
        → Fine (receipt_of m msg holder ret err e)
    any_receipt ret err e k h = elim (Bool-cases (is_ok (ret_code err))) [
      | inr c ↦ receipt_of-Fine ret err e k h c
      | inl c ↦ ok_receipt ret err e c
    ]

    value_charged-Fine :
        (ret : List ℕ) (x : Result Unit) (e : Exec)
        → Keeps (snapshot s) e.tree
        → e.meter.gas_used ≤ℤ msg.gas_limit
        → Fine (value_charged m msg holder ret (x, e))
    unfolding value_charged
    value_charged-Fine ret (value u) e k h = any_receipt ret none e k h
    value_charged-Fine ret (raised err) e k h = any_receipt [] (some err) e k h

    pub after_send-Fine :
        (x : Reply) (e : Exec)
        → Keeps (snapshot s) e.tree
        → e.meter.gas_used ≤ℤ msg.gas_limit
        → e.meter.gas_available ≡ msg.gas_limit
        → Fine (after_send m msg holder (x, e))
    unfolding after_send
    after_send-Fine (returned []) e k h a = any_receipt [] none e k h
    after_send-Fine (returned (y ∷ ys)) e k h a =
        let g = on_chain_return_value m.prices (length (y ∷ ys)) in
        let c = charge-Runs g e in
        value_charged-Fine (y ∷ ys) (charge g e).0 (charge g e).1
          (Keeps-trans (snapshot s) e.tree _ k c.keeps)
          (subst (λ l. (charge g e).1.meter.gas_used ≤ℤ l) (c.limits.same_available ∙ a)
            (c.limits.within (subst (λ l. e.meter.gas_used ≤ℤ l) (sym a) h)))
    after_send-Fine (errored err) e k h a = ground (arith, any_receipt [] (some err) e k h)
    after_send-Fine (panicked err) e k h a = tt
