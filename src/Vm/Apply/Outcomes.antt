-- ===== src/Vm/Apply/Outcomes.antt =====
-- What ApplyMessage of chain/vm/vm.go promises.
use filecoin.Base.{
  ℕ, ◌≡◌, refl, subst, ◌⊎◌, inl, inr, true, false, Option, none, some, arith, Bool-cases,
}
use filecoin.Base.Int.{ℤ, pos, ltb_ℤ}
use filecoin.ChainTypes.Actor.{Actor}
use filecoin.ChainTypes.Message.{Message}
use filecoin.StateTree.{StateTree}
use filecoin.StateTree.Snapshots.{IsTree}
use filecoin.Vm.Gas.{GasCharge, total, on_chain_message}
use filecoin.Vm.ActorError.{is_ok}
use filecoin.Vm.Machine.{Machine, actor_at}
use filecoin.Vm.Machine.Lookups.{actor_at-view}
use filecoin.Vm.Runs.{actor_at-Keeps}
use filecoin.Vm.Send.{Code}
use filecoin.Vm.Apply.{
  ApplyRet, ApplyError, no_gas_limit, negative_gas_limit, wrong_gas_math, receipt, check_message,
  apply_message, apply_checked,
}
use filecoin.Vm.Apply.Gas.{Fits}
use filecoin.Vm.Apply.Failed.{Rewarding, Charged, Untouched, FailsFine}
use filecoin.Vm.Apply.Failed.Start.{from_sender-Fine}
use filecoin.Vm.Apply.Bounded.{Bounded, right_math, from_sender-Bounded}

-- A message that is checked has a positive limit.
checked_limit : (msg : Message) → check_message msg ≡ none → ltb_ℤ (pos 0) msg.gas_limit ≡ true
unfolding check_message
checked_limit msg q = ground arith

checked_error :
    (msg : Message) (err : ApplyError) → check_message msg ≡ some err → right_math err ≡ true
unfolding check_message
checked_error msg no_gas_limit q = refl
checked_error msg negative_gas_limit q = refl
checked_error msg wrong_gas_math q = ground arith
checked_error msg _ q = refl

module _ (m : Machine) (msg : Message) (code : Code) (depth : ℕ) (st : StateTree)
    (fits : Fits msg.gas_limit) where
  apply_checked-Bounded :
      (msg_gas : GasCharge) (penalty : ℤ) (o : Option ApplyError)
      → check_message msg ≡ o
      → Bounded msg (apply_checked m msg code depth msg_gas penalty st o)
  unfolding apply_checked
  apply_checked-Bounded msg_gas penalty (some err) q = checked_error msg err q
  apply_checked-Bounded msg_gas penalty none q =
      let limited = checked_limit msg q in
      let r = actor_at m msg.from st in
      elim (Bool-cases (ltb_ℤ msg.gas_limit (total msg_gas))) [
        | inl n ↦ rw n (refl, ground (arith, limited))
        | inr n ↦ rw n (from_sender-Bounded m msg fits limited code depth msg_gas penalty r.0 r.1)
      ]

  -- The gas used of every receipt is not below 0 and not above the message's limit, an int64; and
  -- ApplyMessage never ends with the error that the gas handling math is wrong: refund and reward
  -- empty the gas holder.
  pub apply_message-Bounded :
      (chain_length : ℕ) → Bounded msg (apply_message m msg code depth chain_length st)
  unfolding apply_message
  apply_message-Bounded chain_length =
      apply_checked-Bounded (on_chain_message m.prices chain_length) _ (check_message msg) refl

  module _ (reward : Actor) (v : IsTree st) (r : Rewarding m st reward) where
    apply_checked-Fine :
        (msg_gas : GasCharge) (penalty : ℤ) (o : Option ApplyError)
        → check_message msg ≡ o
        → FailsFine m msg st reward (apply_checked m msg code depth msg_gas penalty st o)
    unfolding apply_checked
    apply_checked-Fine msg_gas penalty (some err) q = tt
    apply_checked-Fine msg_gas penalty none q =
        elim (Bool-cases (ltb_ℤ msg.gas_limit (total msg_gas))) [
          | inl n ↦ rw n (inr (inl (record { no_gas = refl; same = λ j. refl })))
          | inr n ↦ rw n (
              from_sender-Fine m msg st reward v r fits (checked_limit msg q) code depth msg_gas
                penalty (actor_at m msg.from st).0 (actor_at m msg.from st).1 refl
                (actor_at-Keeps m msg.from st) (actor_at-view m msg.from st))
        ]

    apply_message-Fine :
        (chain_length : ℕ)
        → FailsFine m msg st reward (apply_message m msg code depth chain_length st)
    unfolding apply_message
    apply_message-Fine chain_length =
        apply_checked-Fine (on_chain_message m.prices chain_length) _ (check_message msg) refl

    -- A message whose receipt has an exit code other than 0 either is not run, uses no gas and
    -- changes no actor; or its sender loses a nonce and the price of the gas used, which is not
    -- below 0 and within the limit, the reward actor gains that price, and every other actor is
    -- as it was, whatever the actors' code has done. The gas limit is an int64, the layers of the
    -- tree have no key twice, and the reward actor is at an ID and no account.
    pub apply_message_charges :
        (chain_length : ℕ) (ret : ApplyRet) (st' : StateTree)
        → apply_message m msg code depth chain_length st ≡ (receipt ret, st')
        → is_ok ret.exit_code ≡ false
        → Untouched st ret st' ⊎ Charged m msg st reward ret st'
    apply_message_charges chain_length ret st' q c =
        either (subst (FailsFine m msg st reward) q (apply_message-Fine chain_length))
      where
        either :
            (is_ok ret.exit_code ≡ true) ⊎ Untouched st ret st' ⊎ Charged m msg st reward ret st'
            → Untouched st ret st' ⊎ Charged m msg st reward ret st'
        either (inl y) = absurd (cc (y, c))
        either (inr x) = x
