-- ===== src/Vm/Apply/Failed.antt =====
-- A message that fails in ApplyMessage of chain/vm/vm.go: what is left of it.
pub mod Steps
pub mod Start
use filecoin.Base.{
  ℕ, ◌+◌, ◌≡◌, refl, sym, ap, ◌∙◌, subst, ◌⊎◌, inl, inr, List, [], ◌∷◌, Bool, true, false, Option,
  none, some, if◌then◌else◌, ◌==◌, ==_iff, ==_refl, nat_eq, arith, not, Bool-cases,
}
use filecoin.Base.Lists.{length}
use filecoin.Base.Int.{ℤ, pos, ◌+ℤ◌, ◌-ℤ◌, ◌≤ℤ◌, ltb_ℤ, +ℤ_parts, -ℤ_parts, eq_of_parts}
use filecoin.ChainTypes.Actor.{Actor}
use filecoin.ChainTypes.Message.{Message, u64}
use filecoin.StateTree.{StateTree, snapshot, revert}
use filecoin.StateTree.View.{view}
use filecoin.StateTree.Snapshots.{IsTree}
use filecoin.StateTree.Keeps.{Keeps, Keeps-trans, revert-Keeps, revert-view}
use filecoin.Vm.Gas.{GasCharge, total, is_zero, on_chain_message, on_chain_return_value}
use filecoin.Vm.Transfer.{deposit_funds}
use filecoin.Vm.GasHolder.{
  Settled, transfer_to_gas_holder, transfer_from_gas_holder, increment_nonce,
}
use filecoin.Vm.GasHolder.Settles.{to_gas_holder-Done, mutate_actor-Done}
use filecoin.Vm.GasHolder.Steady.{to_gas_holder-Keeps, increment_nonce-Keeps}
use filecoin.Vm.ActorError.{
  ExitCode, is_ok, ActorError, exit, fatal_error, too_deep, is_fatal, ret_code,
}
use filecoin.Vm.Machine.{
  Machine, id, Lookup, resolved, FoundAt, found, no_actor, unknown, lookup_failed, lookup_id, id_of,
  actor_at,
}
use filecoin.Vm.Machine.Lookups.{
  Stands, actor_at-Stands, actor_at-view, id_of-resolved, id_of-id, lookup-changed,
}
use filecoin.Vm.Runtime.{Exec, Result, value, raised, charge}
use filecoin.Vm.Program.{Reply, returned, errored, panicked}
use filecoin.Vm.Runs.{Runs, Runs-trans, charge-Runs, actor_at-Keeps}
use filecoin.Vm.Runs.Sends.{send-Runs}
use filecoin.Vm.Runs.Nested.{internal_send-Runs}
use filecoin.Vm.Send.{Code, send, internal_send}
use filecoin.Vm.Apply.{
  rewarded, refunded, ApplyRet, ApplyError, Applied, receipt, failed_with, check_message,
  not_below_zero, settle, reverted, receipt_of, value_charged, after_send, run_message,
  nonce_raised, withdrawn, from_sender, apply_message, empty_holder, made_out,
}
use filecoin.Vm.Apply.Gas.{Fits, cost_of, gain_of, Parts, split_gas-Parts}
use filecoin.Vm.Apply.Settling.{with_gas, settle_lem}

-- The reward actor stands at an ID, and is no account.
pub record Rewarding (m : Machine) (st : StateTree) (reward : Actor) : Type 0 where
  pub at_id : m.protocol m.reward_address ≡ id
  pub there_is : view st m.reward_address ≡ some reward
  pub no_account : reward.code == m.account_code ≡ false

-- The sender at `at` has paid the price of the gas used, which the reward actor has got, and has
-- used up a nonce; every other actor is as it was.
pub record Charged (m : Machine) (msg : Message) (st : StateTree) (reward : Actor) (ret : ApplyRet)
    (st' : StateTree) : Type 0 where
  pub act : Actor
  pub sender : Stands m msg.from st act
  pub not_negative : ltb_ℤ ret.gas_used (pos 0) ≡ false
  pub within_limit : ret.gas_used ≤ℤ msg.gas_limit
  pub after :
      (j : ℕ)
      → view st' j ≡ (
          if m.reward_address == j
          then some (with_gas reward (gain_of msg.gas_price ret.gas_used))
          else if sender.at == j
          then some (record act {
            nonce = u64 (act.nonce + 1);
            balance = act.balance -ℤ gain_of msg.gas_price ret.gas_used;
          })
          else view st j)

-- No gas is used, and no actor is changed.
pub record Untouched (st : StateTree) (ret : ApplyRet) (st' : StateTree) : Type 0 where
  pub no_gas : ret.gas_used ≡ pos 0
  pub same : (j : ℕ) → view st' j ≡ view st j

paid_balance : (b cost refund gain : ℤ) → refund +ℤ gain ≡ cost → b -ℤ cost +ℤ refund ≡ b -ℤ gain
paid_balance b cost refund gain q = eq_of_parts _ _ (
    ground (
      arith,
      q,
      +ℤ_parts refund gain,
      -ℤ_parts b cost,
      +ℤ_parts (b -ℤ cost) refund,
      -ℤ_parts b gain,
    ))

pub clamped_fine : (g : ℤ) → ltb_ℤ (not_below_zero g) (pos 0) ≡ false
clamped_fine g = ground arith

pub clamped_within : (g l : ℤ) → g ≤ℤ l → ltb_ℤ l (pos 0) ≡ false → not_below_zero g ≤ℤ l
clamped_within g l h n = ground (arith, h, n)

module _ (m : Machine) (msg : Message) (st : StateTree) (reward : Actor) where
  abbrev pub FailsFine : Applied × StateTree → Type 0
  FailsFine (failed_with err, st') = Unit
  FailsFine (receipt ret, st') =
      (is_ok ret.exit_code ≡ true) ⊎ Untouched st ret st' ⊎ Charged m msg st reward ret st'

  -- The receipt at the end is the one that was made out.
  rewarded_ok :
      (ret : ApplyRet) (t : StateTree) (h : Actor) (b : Bool)
      → is_ok ret.exit_code ≡ true
      → FailsFine (rewarded m msg ret (t, h, b))
  unfolding rewarded
  rewarded_ok ret t h false q = tt
  rewarded_ok ret t h true q = ground (arith, q)

  refunded_ok :
      (ret : ApplyRet) (t : StateTree) (h : Actor) (b : Bool)
      → is_ok ret.exit_code ≡ true
      → FailsFine (refunded m msg ret (t, h, b))
  unfolding refunded
  refunded_ok ret t h false q = tt
  refunded_ok ret t h true q =
      let s =
        transfer_from_gas_holder (id_of m t) m.reward_address h (gain_of msg.gas_price ret.gas_used)
          t in
      rewarded_ok ret s.0 s.1 s.2 q

  pub settle_ok :
      (holder : Actor) (ret : ApplyRet) (t : StateTree)
      → is_ok ret.exit_code ≡ true
      → FailsFine (settle m msg holder ret t)
  unfolding settle
  settle_ok holder ret t q =
      let s =
        transfer_from_gas_holder (id_of m t) msg.from holder
          (cost_of (msg.gas_limit -ℤ ret.gas_used) msg.gas_price) t in
      refunded_ok ret s.0 s.1 s.2 q

  module _ (v : IsTree st) (r : Rewarding m st reward) (fits : Fits msg.gas_limit)
      (limited : ltb_ℤ (pos 0) msg.gas_limit ≡ true) (act : Actor)
      (sender : Stands m msg.from st act) where
    -- the sender after the message has begun
    abbrev pub begun : Actor
    begun = record act {
      nonce = u64 (act.nonce + 1);
      balance = act.balance -ℤ cost_of msg.gas_limit msg.gas_price;
    }

    abbrev pub Begun : StateTree → Type 0
    Begun s = Keeps st s × ((j : ℕ) → view s j ≡ (if sender.at == j then some begun else view st j))

    module _ (known : act.code ≡ m.account_code)
        (fine : ltb_ℤ (cost_of msg.gas_limit msg.gas_price) (pos 0) ≡ false) where
      pub apart : sender.at == m.reward_address ≡ false
      apart = elim (Bool-cases (sender.at == m.reward_address)) [
        | inr n ↦ n
        | inl y ↦ absurd (
            same_code (
              sym sender.shown_there
              ∙ ap (view st) ((==_iff sender.at m.reward_address).0 y)
              ∙ r.there_is))
      ]
        where
          same_code : some act ≡ some reward → ⊥
          same_code q =
              absurd (ground (arith, q, known, r.no_account, ==_iff reward.code m.account_code))

      module _ (s : StateTree) (b : Begun s) (holder : Actor)
          (full : holder.balance ≡ pos 0 +ℤ cost_of msg.gas_limit msg.gas_price) where
        -- what a failed run leaves, before the refund
        pub failed_receipt :
            (ret : ApplyRet) (t : StateTree)
            → Keeps (snapshot s) t
            → ((j : ℕ) → view t j ≡ view s j)
            → Parts msg.gas_limit ret.gas_used msg.gas_price
            → ltb_ℤ ret.gas_used (pos 0) ≡ false
            → ret.gas_used ≤ℤ msg.gas_limit
            → FailsFine (settle m msg holder ret t)
        failed_receipt ret t k same parts low high =
            let from_is : id_of m t msg.from ≡ some sender.at =
              id_of-resolved m t msg.from sender.at (
                lookup-changed m st t sender.at msg.from act begun sender.shown_there refl
                  (same m.init_address ∙ b.1 m.init_address)
                ∙ sender.looked_up) in
            let there_f : view t sender.at ≡ some begun =
              same sender.at ∙ b.1 sender.at ∙ rw (==_refl sender.at) refl in
            let there_w : view t m.reward_address ≡ some reward =
              same m.reward_address ∙ b.1 m.reward_address ∙ rw apart r.there_is in
            let (st', q, after) =
              settle_lem m msg s t k ((b.0).is_tree v) sender.at m.reward_address begun reward apart
                there_f there_w holder (pos 0) ret refl full parts from_is
                (λ x. id_of-id m x m.reward_address r.at_id) in
            subst FailsFine (sym q) (
              inr (
                inr (record {
                  act = act;
                  sender = sender;
                  not_negative = low;
                  within_limit = high;
                  after = λ j. after j ∙ settled (m.reward_address == j) j (same j ∙ b.1 j);
                })))
          where
            settled :
                (is_reward : Bool) (j : ℕ)
                → view t j ≡ (if sender.at == j then some begun else view st j)
                → (if is_reward
                    then some (with_gas reward (gain_of msg.gas_price ret.gas_used))
                    else if sender.at == j
                    then some
                        (with_gas begun (cost_of (msg.gas_limit -ℤ ret.gas_used) msg.gas_price))
                    else view t j)
                  ≡ (if is_reward
                      then some (with_gas reward (gain_of msg.gas_price ret.gas_used))
                      else if sender.at == j
                      then some (record act {
                        nonce = u64 (act.nonce + 1);
                        balance = act.balance -ℤ gain_of msg.gas_price ret.gas_used;
                      })
                      else view st j)
            settled true j e = refl
            settled false j e = elim (Bool-cases (sender.at == j)) [
              | inr n ↦ rw n (e ∙ rw n refl)
              | inl y ↦ rw y (
                  ap (λ x. some (record act { nonce = u64 (act.nonce + 1); balance = x }))
                    (paid_balance act.balance (cost_of msg.gas_limit msg.gas_price)
                      (cost_of (msg.gas_limit -ℤ ret.gas_used) msg.gas_price)
                      (gain_of msg.gas_price ret.gas_used) parts.sum))
            ]
