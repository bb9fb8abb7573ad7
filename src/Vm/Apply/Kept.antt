-- ===== src/Vm/Apply/Kept.antt =====
-- Whatever becomes of a message in ApplyMessage of chain/vm/vm.go, the tree's older layers stay and
-- no balance falls below 0.
use filecoin.Base.{
  ℕ, refl, List, [], ◌∷◌, Bool, true, false, Option, none, some, ◌==◌, nat_eq, Bool-cases, inl, inr,
}
use filecoin.Base.Lists.{length}
use filecoin.Base.Int.{ℤ, pos, ◌-ℤ◌, ltb_ℤ}
use filecoin.ChainTypes.Actor.{Actor}
use filecoin.ChainTypes.Message.{Message}
use filecoin.StateTree.{StateTree, snapshot, revert}
use filecoin.StateTree.Keeps.{Keeps, Keeps-refl, Keeps-trans, revert-Keeps}
use filecoin.StateTree.Solvent.{Solvent}
use filecoin.Vm.Gas.{GasCharge, total, on_chain_message, on_chain_return_value}
use filecoin.Vm.GasHolder.{transfer_to_gas_holder, transfer_from_gas_holder, increment_nonce}
use filecoin.Vm.GasHolder.Steady.{to_gas_holder-Keeps, from_gas_holder-Keeps, increment_nonce-Keeps}
use filecoin.Vm.ActorError.{ExitCode, is_ok, ActorError, is_fatal, ret_code}
use filecoin.Vm.Machine.{Machine, FoundAt, found, no_actor, unknown, lookup_failed, id_of, actor_at}
use filecoin.Vm.Runtime.{Exec, Result, value, raised, charge}
use filecoin.Vm.Program.{Reply, returned, errored, panicked}
use filecoin.Vm.Runs.{charge-Runs, actor_at-Keeps}
use filecoin.Vm.Runs.Sends.{send-Runs}
use filecoin.Vm.Runs.Nested.{internal_send-Runs, cleared-Keeps}
use filecoin.Vm.Send.{Code, send, internal_send}
use filecoin.Vm.Apply.{
  ApplyRet, ApplyError, check_message, not_below_zero, made_out, rewarded, refunded, settle,
  reverted, receipt_of, value_charged, after_send, run_message, nonce_raised, withdrawn,
  from_sender, apply_checked, apply_message, empty_holder, implicit_receipt, apply_implicit_message,
}
use filecoin.Vm.Apply.Gas.{cost_of, gain_of}

module _ (m : Machine) (msg : Message) where
  module _ (before : StateTree) where
    rewarded-Keeps :
        (ret : ApplyRet) (st : StateTree) (h : Actor) (b : Bool)
        → Keeps (snapshot before) st
        → Keeps before (rewarded m msg ret (st, h, b)).1
    unfolding rewarded
    rewarded-Keeps ret st h false k = cleared-Keeps before st k
    rewarded-Keeps ret st h true k = cleared-Keeps before st k

    refunded-Keeps :
        (ret : ApplyRet) (st : StateTree) (h : Actor) (b : Bool)
        → Keeps (snapshot before) st
        → Keeps before (refunded m msg ret (st, h, b)).1
    unfolding refunded
    refunded-Keeps ret st h false k = cleared-Keeps before st k
    refunded-Keeps ret st h true k =
        let gain = gain_of msg.gas_price ret.gas_used in
        let s = transfer_from_gas_holder (id_of m st) m.reward_address h gain st in
        rewarded-Keeps ret s.0 s.1 s.2 (
          Keeps-trans (snapshot before) st s.0 k
            (from_gas_holder-Keeps (id_of m st) m.reward_address h st gain))

    settle-Keeps :
        (holder : Actor) (ret : ApplyRet) (st : StateTree)
        → Keeps (snapshot before) st
        → Keeps before (settle m msg holder ret st).1
    unfolding settle
    settle-Keeps holder ret st k =
        let refund = cost_of (msg.gas_limit -ℤ ret.gas_used) msg.gas_price in
        let s = transfer_from_gas_holder (id_of m st) msg.from holder refund st in
        refunded-Keeps ret s.0 s.1 s.2 (
          Keeps-trans (snapshot before) st s.0 k
            (from_gas_holder-Keeps (id_of m st) msg.from holder st refund))

    reverted-Keeps :
        (c : ExitCode) (st : StateTree)
        → Keeps (snapshot before) st
        → Keeps (snapshot before) (reverted m msg c st)
    unfolding reverted
    reverted-Keeps c st k = elim (Bool-cases (is_ok c)) [
      | inl y ↦ rw y k
      | inr n ↦ rw n (Keeps-trans (snapshot before) st (revert st) k (revert-Keeps st))
    ]

    receipt_of-Keeps :
        (holder : Actor) (ret : List ℕ) (err : Option ActorError) (e : Exec)
        → Keeps (snapshot before) e.tree
        → Keeps before (receipt_of m msg holder ret err e).1
    unfolding receipt_of
    receipt_of-Keeps holder ret err e k =
        settle-Keeps holder (made_out ret err (not_below_zero e.meter.gas_used))
          (reverted m msg (ret_code err) e.tree) (reverted-Keeps (ret_code err) e.tree k)

    value_charged-Keeps :
        (holder : Actor) (ret : List ℕ) (x : Result Unit) (e : Exec)
        → Keeps (snapshot before) e.tree
        → Keeps before (value_charged m msg holder ret (x, e)).1
    unfolding value_charged
    value_charged-Keeps holder ret (value u) e k = receipt_of-Keeps holder ret none e k
    value_charged-Keeps holder ret (raised err) e k = receipt_of-Keeps holder [] (some err) e k

    after_send-Keeps :
        (holder : Actor) (x : Reply) (e : Exec)
        → Keeps (snapshot before) e.tree
        → Keeps before (after_send m msg holder (x, e)).1
    unfolding after_send
    after_send-Keeps holder (returned []) e k = receipt_of-Keeps holder [] none e k
    after_send-Keeps holder (returned (y ∷ ys)) e k =
        let g = on_chain_return_value m.prices (length (y ∷ ys)) in
        value_charged-Keeps holder (y ∷ ys) (charge g e).0 (charge g e).1
          (Keeps-trans (snapshot before) e.tree (charge g e).1.tree k (charge-Runs g e).keeps)
    after_send-Keeps holder (errored err) e k = elim (Bool-cases (is_fatal err)) [
      | inl y ↦ rw y (cleared-Keeps before e.tree k)
      | inr n ↦ rw n (receipt_of-Keeps holder [] (some err) e k)
    ]
    after_send-Keeps holder (panicked err) e k = cleared-Keeps before e.tree k

  abbrev starting : StateTree → Exec
  starting st = record {
    tree = st;
    meter = record { gas_available = msg.gas_limit; gas_used = pos 0 };
    created = 0;
  }

  module _ (code : Code) (depth : ℕ) where
    sent-Keeps :
        (g : Option GasCharge) (st : StateTree)
        → Keeps st
            (send m code
              (internal_send m code msg.from msg.nonce depth)
              msg.from
              msg.nonce
              g
              msg
              (starting st)).1.tree
    sent-Keeps g st =
        (send-Runs m code (internal_send m code msg.from msg.nonce depth)
          (internal_send-Runs m code msg.from msg.nonce depth) msg.from msg.nonce g msg
          (starting st) refl).keeps

    module _ (msg_gas : GasCharge) where
      run_message-Keeps :
          (holder : Actor) (st : StateTree)
          → Keeps st (run_message m msg code depth msg_gas holder st).1
      unfolding run_message
      run_message-Keeps holder st =
          let x =
            send m code (internal_send m code msg.from msg.nonce depth) msg.from msg.nonce
              (some msg_gas) msg (starting (snapshot st)) in
          after_send-Keeps st holder x.0 x.1 (sent-Keeps (some msg_gas) (snapshot st))

      nonce_raised-Keeps :
          (before st : StateTree) (holder : Actor) (b : Bool)
          → Keeps before st
          → Keeps before (nonce_raised m msg code depth msg_gas (st, holder, b)).1
      unfolding nonce_raised
      nonce_raised-Keeps before st holder false k = k
      nonce_raised-Keeps before st holder true k =
          Keeps-trans before st (run_message m msg code depth msg_gas holder st).1 k
            (run_message-Keeps holder st)

      withdrawn-Keeps :
          (before st : StateTree) (holder : Actor) (b : Bool)
          → Keeps before st
          → Keeps before (withdrawn m msg code depth msg_gas (st, holder, b)).1
      unfolding withdrawn
      withdrawn-Keeps before st holder false k = k
      withdrawn-Keeps before st holder true k =
          let s = increment_nonce (id_of m st) msg.from holder st in
          nonce_raised-Keeps before s.0 s.1 s.2
            (Keeps-trans before st s.0 k (increment_nonce-Keeps (id_of m st) msg.from holder st))

      from_sender-Keeps :
          (before : StateTree) (penalty : ℤ) (o : FoundAt) (st : StateTree)
          → Keeps before st
          → Keeps before (from_sender m msg code depth msg_gas penalty (o, st)).1
      unfolding from_sender
      from_sender-Keeps before penalty (found act) st k =
          let cost = cost_of msg.gas_limit msg.gas_price in
          let s = transfer_to_gas_holder (id_of m st) msg.from empty_holder cost st in
          let go = withdrawn-Keeps before s.0 s.1 s.2 (
            Keeps-trans before st s.0 k
              (to_gas_holder-Keeps (id_of m st) msg.from empty_holder st cost)) in
          elim (Bool-cases (act.code == m.account_code)) [
            | inr n ↦ rw n k
            | inl y ↦ rw y (elim (Bool-cases (msg.nonce == act.nonce)) [
              | inr n ↦ rw n k
              | inl z ↦
                  rw z (elim (Bool-cases (ltb_ℤ act.balance cost)) [
                    | inl n ↦ rw n k
                    | inr n ↦ rw n go
                  ])
            ])
          ]
      from_sender-Keeps before penalty no_actor st k = k
      from_sender-Keeps before penalty unknown st k = k
      from_sender-Keeps before penalty lookup_failed st k = k

      pub apply_checked-Keeps :
          (penalty : ℤ) (st : StateTree) (o : Option ApplyError)
          → Keeps st (apply_checked m msg code depth msg_gas penalty st o).1
      unfolding apply_checked
      apply_checked-Keeps penalty st (some err) = Keeps-refl st
      apply_checked-Keeps penalty st none =
          let r = actor_at m msg.from st in
          elim (Bool-cases (ltb_ℤ msg.gas_limit (total msg_gas))) [
            | inl n ↦ rw n (Keeps-refl st)
            | inr n ↦ rw n (from_sender-Keeps st penalty r.0 r.1 (actor_at-Keeps m msg.from st))
          ]

    apply_message-Keeps :
        (chain_length : ℕ) (st : StateTree)
        → Keeps st (apply_message m msg code depth chain_length st).1
    unfolding apply_message
    apply_message-Keeps chain_length st =
        apply_checked-Keeps (on_chain_message m.prices chain_length) _ st (check_message msg)

    implicit_receipt-Keeps :
        (st : StateTree) (x : Reply) (e : Exec)
        → Keeps st e.tree
        → Keeps st (implicit_receipt (x, e)).1
    unfolding implicit_receipt
    implicit_receipt-Keeps st (returned ret) e k = k
    implicit_receipt-Keeps st (errored err) e k = k
    implicit_receipt-Keeps st (panicked err) e k = k

    apply_implicit_message-Keeps :
        (st : StateTree) → Keeps st (apply_implicit_message m msg code depth st).1
    unfolding apply_implicit_message
    apply_implicit_message-Keeps st =
        let x =
          send m code (internal_send m code msg.from msg.nonce depth) msg.from msg.nonce none msg
            (starting st) in
        implicit_receipt-Keeps st x.0 x.1 (sent-Keeps none st)

    -- If no balance is below 0, in the root and in every layer, none is after a message, whatever
    -- its receipt or error and whatever the actors' code does, and none after an implicit
    -- message.
    pub apply_message-Solvent :
        (chain_length : ℕ) (st : StateTree)
        → Solvent st
        → Solvent (apply_message m msg code depth chain_length st).1
          × Solvent (apply_implicit_message m msg code depth st).1
    apply_message-Solvent chain_length st s = (
      (apply_message-Keeps chain_length st).solvent s,
      (apply_implicit_message-Keeps st).solvent s,
    )
