-- ===== src/Vm/Apply/Failed/Start.antt =====
-- The steps of ApplyMessage of chain/vm/vm.go before a message is sent.
use filecoin.Base.{
  ℕ, ◌+◌, ◌≡◌, refl, sym, ap, ◌∙◌, subst, inl, inr, [], true, false, Option, some, if◌then◌else◌,
  ◌==◌, ==_iff, ==_refl, nat_eq, arith, Bool-cases,
}
use filecoin.Base.Int.{ℤ, pos, ◌+ℤ◌, ◌-ℤ◌, ◌≤ℤ◌, ltb_ℤ}
use filecoin.ChainTypes.Actor.{Actor}
use filecoin.ChainTypes.Message.{Message, u64}
use filecoin.StateTree.{StateTree, snapshot}
use filecoin.StateTree.View.{view}
use filecoin.StateTree.Snapshots.{IsTree}
use filecoin.StateTree.Keeps.{Keeps, Keeps-trans}
use filecoin.Vm.Gas.{GasCharge}
use filecoin.Vm.Transfer.{deposit_funds}
use filecoin.Vm.GasHolder.{mutate_actor, transfer_to_gas_holder, increment_nonce}
use filecoin.Vm.GasHolder.Settles.{to_gas_holder-Done, mutate_actor-Done}
use filecoin.Vm.GasHolder.Steady.{to_gas_holder-Keeps, increment_nonce-Keeps}
use filecoin.Vm.ActorError.{ExitCode, ActorError}
use filecoin.Vm.Machine.{Machine, FoundAt, found, no_actor, unknown, lookup_failed, id_of, actor_at}
use filecoin.Vm.Machine.Lookups.{
  Stands, actor_at-Stands, id_of-resolved, lookup-changed, lookup_id-same, head_shown,
}
use filecoin.Vm.Runtime.{Exec}
use filecoin.Vm.Runs.Sends.{send-Runs}
use filecoin.Vm.Runs.Nested.{internal_send-Runs}
use filecoin.Vm.Send.{Code, send, internal_send}
use filecoin.Vm.Apply.{
  ApplyRet, Applied, receipt, run_message, nonce_raised, withdrawn, from_sender, empty_holder,
}
use filecoin.Vm.Apply.Gas.{Fits, cost_of}
use filecoin.Vm.Apply.Settling.{kept_by}
use filecoin.Vm.Apply.Failed.{Rewarding, FailsFine, begun, Begun}
use filecoin.Vm.Apply.Failed.Steps.{after_send-Fine}

module _ (m : Machine) (msg : Message) (st : StateTree) (reward : Actor) (v : IsTree st)
    (r : Rewarding m st reward) (fits : Fits msg.gas_limit)
    (limited : ltb_ℤ (pos 0) msg.gas_limit ≡ true) where
  abbrev Fine : Applied × StateTree → Type 0
  Fine = FailsFine m msg st reward

  -- The sender's actor, when its funds are withdrawn and its nonce is raised.
  module _ (code : Code) (depth : ℕ) (msg_gas : GasCharge) (act : Actor)
      (sender : Stands m msg.from st act) (known : act.code ≡ m.account_code) where
    run_message-Fine :
        (fine : ltb_ℤ (cost_of msg.gas_limit msg.gas_price) (pos 0) ≡ false) (s : StateTree)
        (holder : Actor)
        → Begun m msg st reward v r fits limited act sender s
        → holder.balance ≡ pos 0 +ℤ cost_of msg.gas_limit msg.gas_price
        → Fine (run_message m msg code depth msg_gas holder s)
    unfolding run_message
    run_message-Fine fine s holder b full =
        let nested = internal_send m code msg.from msg.nonce depth in
        let e : Exec = record {
          tree = snapshot s;
          meter = record { gas_available = msg.gas_limit; gas_used = pos 0 };
          created = 0;
        } in
        let x = send m code nested msg.from msg.nonce (some msg_gas) msg e in
        let k =
          send-Runs m code nested (internal_send-Runs m code msg.from msg.nonce depth) msg.from
            msg.nonce (some msg_gas) msg e refl in
        after_send-Fine m msg st reward v r fits limited act sender known fine s b holder full x.0
          x.1 k.keeps
          (subst (λ l. x.1.meter.gas_used ≤ℤ l) k.limits.same_available
            (k.limits.within (ground (arith, limited))))
          k.limits.same_available

    from_begin :
        (fine : ltb_ℤ (cost_of msg.gas_limit msg.gas_price) (pos 0) ≡ false) (st1 : StateTree)
        → Keeps st st1
        → ((j : ℕ) → view st1 j ≡ view st j)
        → ltb_ℤ act.balance (cost_of msg.gas_limit msg.gas_price) ≡ false
        → Fine (
            withdrawn m msg code depth msg_gas (
              transfer_to_gas_holder
                (id_of m st1)
                msg.from
                empty_holder
                (cost_of msg.gas_limit msg.gas_price)
                st1))
    unfolding withdrawn nonce_raised increment_nonce deposit_funds
    from_begin fine st1 k same covered =
        let cost = cost_of msg.gas_limit msg.gas_price in
        let f = sender.at in
        let kept : Actor = record act { balance = act.balance -ℤ cost } in
        let holder = deposit_funds empty_holder cost in
        let begun' = begun m msg st reward v r fits limited act sender in
        let raise : Actor → Option (Actor × Actor) =
          λ a. some (record a { nonce = u64 (a.nonce + 1) }, holder) in
        let from_is = id_of-resolved m st1 msg.from f (
          lookup_id-same m st1 st msg.from (ap head_shown (same m.init_address))
          ∙ sender.looked_up) in
        let (st2, p, after) =
          to_gas_holder-Done (id_of m st1) msg.from f from_is empty_holder cost fine st1 act
            (same f ∙ sender.shown_there) covered in
        let k2 =
          kept_by st1 _ st2 holder true
            (to_gas_holder-Keeps (id_of m st1) msg.from empty_holder st1 cost) p in
        let from_is2 = id_of-resolved m st2 msg.from f (
          lookup-changed m st st2 f msg.from act kept sender.shown_there refl (
            after m.init_address
            ∙ ap (λ o. if f == m.init_address then some kept else o) (same m.init_address))
          ∙ sender.looked_up) in
        let (st3, q, last) =
          mutate_actor-Done f holder raise st2 kept begun' holder (after f ∙ rw (==_refl f) refl)
            refl in
        let raised_nonce : increment_nonce (id_of m st2) msg.from holder st2 ≡ (st3, holder, true) =
          ap (λ o. mutate_actor o holder raise st2) from_is2 ∙ q in
        let k3 =
          kept_by st2 _ st3 holder true (increment_nonce-Keeps (id_of m st2) msg.from holder st2)
            raised_nonce in
        subst (λ x. Fine (withdrawn m msg code depth msg_gas x)) (sym p)
          (subst (λ x. Fine (nonce_raised m msg code depth msg_gas x)) (sym raised_nonce)
            (run_message-Fine fine st3 holder
              (
                Keeps-trans st st1 st3 k (Keeps-trans st1 st2 st3 k2 k3),
                λ j. ground (arith, last j, after j, same j),
              )
              refl))

    negative_cost :
        (st1 : StateTree)
        → ltb_ℤ (cost_of msg.gas_limit msg.gas_price) (pos 0) ≡ true
        → Fine (
            withdrawn m msg code depth msg_gas (
              transfer_to_gas_holder
                (id_of m st1)
                msg.from
                empty_holder
                (cost_of msg.gas_limit msg.gas_price)
                st1))
    unfolding withdrawn transfer_to_gas_holder
    negative_cost st1 n = rw n tt

    -- The sender's checks are passed.
    passed :
        (st1 : StateTree)
        → Keeps st st1
        → ((j : ℕ) → view st1 j ≡ view st j)
        → ltb_ℤ act.balance (cost_of msg.gas_limit msg.gas_price) ≡ false
        → Fine (
            withdrawn m msg code depth msg_gas (
              transfer_to_gas_holder
                (id_of m st1)
                msg.from
                empty_holder
                (cost_of msg.gas_limit msg.gas_price)
                st1))
    passed st1 k same covered =
        elim (Bool-cases (ltb_ℤ (cost_of msg.gas_limit msg.gas_price) (pos 0))) [
          | inl n ↦ negative_cost st1 n
          | inr n ↦ from_begin n st1 k same covered
        ]

  module _ (code : Code) (depth : ℕ) (msg_gas : GasCharge) (penalty : ℤ) where
    untouched :
        (ret : ApplyRet) (st1 : StateTree)
        → ret.gas_used ≡ pos 0
        → ((j : ℕ) → view st1 j ≡ view st j)
        → Fine (receipt ret, st1)
    untouched ret st1 g same = inr (inl (record { no_gas = g; same = same }))

    pub from_sender-Fine :
        (o : FoundAt) (st1 : StateTree)
        → (actor_at m msg.from st).0 ≡ o
        → Keeps st st1
        → ((j : ℕ) → view st1 j ≡ view st j)
        → Fine (from_sender m msg code depth msg_gas penalty (o, st1))
    unfolding from_sender
    from_sender-Fine (found act) st1 e k same =
        let refusal = λ (c : ExitCode) (err : Option ActorError).
          untouched
            (record {
              exit_code = c;
              return_value = [];
              gas_used = pos 0;
              actor_err = err;
              penalty = penalty;
            })
            st1 refl same in
        elim (Bool-cases (act.code == m.account_code)) [
          | inr n ↦ rw n (refusal _ _)
          | inl y ↦ rw y (elim (Bool-cases (msg.nonce == act.nonce)) [
            | inr n ↦ rw n (refusal _ _)
            | inl z ↦
                rw z (elim (Bool-cases (ltb_ℤ act.balance (cost_of msg.gas_limit msg.gas_price))) [
                  | inl n ↦ rw n (refusal _ _)
                  | inr n ↦ rw n (
                      passed code depth msg_gas act (actor_at-Stands m msg.from st act e)
                        ((==_iff act.code m.account_code).0 y) st1 k same n)
                ])
          ])
        ]
    from_sender-Fine no_actor st1 e k same = untouched _ st1 refl same
    from_sender-Fine unknown st1 e k same = untouched _ st1 refl same
    from_sender-Fine lookup_failed st1 e k same = tt
