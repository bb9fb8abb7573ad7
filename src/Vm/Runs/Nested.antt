-- ===== src/Vm/Runs/Nested.antt =====
-- A nested send leaves the layers below the tree it starts from, and one that fails shows what was
-- there before: internalSend of chain/vm/runtime.go.
use filecoin.Base.{ℕ, zero, suc, ◌≡◌, refl, subst, List, Option, none, nat_eq}
use filecoin.Base.Int.{ℤ, ◌≤ℤ◌}
use filecoin.ChainTypes.Actor.{Actor}
use filecoin.StateTree.{StateTree, snapshot, revert}
use filecoin.StateTree.View.{view}
use filecoin.StateTree.Keeps.{Keeps, Keeps-trans, clear_snapshot-Keeps, revert-Keeps, reverted-view}
use filecoin.Vm.ActorError.{ActorError}
use filecoin.Vm.Machine.{Machine}
use filecoin.Vm.Runtime.{Exec, answer_as}
use filecoin.Vm.Program.{Reply, returned, errored, panicked}
use filecoin.Vm.Send.{Code, send, cleared, message_to, closed, internal_send}
use filecoin.Vm.Runs.{Runs, Limits, Runs-refl}
use filecoin.Vm.Runs.Sends.{send-Runs}

abbrev ShownAgain : Reply → (ℕ → Option Actor) → (ℕ → Option Actor) → Type 0
ShownAgain (returned ret) old new = Unit
ShownAgain (errored err) old new = (j : ℕ) → new j ≡ old j
ShownAgain (panicked err) old new = Unit

-- What has been cleared after a snapshot.
pub cleared-Keeps : (st st' : StateTree) → Keeps (snapshot st) st' → Keeps st (cleared st')
cleared-Keeps st st' k = let (st'', q, l) = clear_snapshot-Keeps st st' k in rw (cleared, q) l

module _ (before e : Exec) (k : Runs (answer_as before (snapshot before.tree)) e) where
  meter_back : Limits before.meter (record before.meter { gas_used = e.meter.gas_used })
  meter_back = record { same_available = refl; within = λ h. subst_limit h }
    where
      subst_limit :
          before.meter.gas_used ≤ℤ before.meter.gas_available
          → e.meter.gas_used ≤ℤ before.meter.gas_available
      subst_limit h = subst (λ a. e.meter.gas_used ≤ℤ a) k.limits.same_available (k.limits.within h)

  closed-Runs : (r : Reply) → Runs before (closed before (r, e)).1
  unfolding closed
  closed-Runs (returned ret) = record {
    keeps = cleared-Keeps before.tree e.tree k.keeps;
    limits = meter_back;
  }
  closed-Runs (panicked err) = record {
    keeps = cleared-Keeps before.tree e.tree k.keeps;
    limits = meter_back;
  }
  closed-Runs (errored err) = record {
    keeps =
        cleared-Keeps before.tree (revert e.tree)
          (Keeps-trans (snapshot before.tree) e.tree (revert e.tree) k.keeps (revert-Keeps e.tree));
    limits = meter_back;
  }

  closed-shown :
      (r : Reply)
      → ShownAgain (closed before (r, e)).0 (view before.tree) (view (closed before (r, e)).1.tree)
  unfolding closed
  closed-shown (returned ret) = tt
  closed-shown (panicked err) = tt
  closed-shown (errored err) =
      λ j. let (st'', q, _, v) = reverted-view before.tree e.tree j k.keeps in rw (cleared, q) v

module _ (m : Machine) (code : Code) (origin nonce : ℕ) where
  pub internal_send-Runs :
      (depth : ℕ) (from to method : ℕ) (v : ℤ) (params : List ℕ) (e : Exec)
      → Runs e (internal_send m code origin nonce depth from to method v params e).1
  unfolding internal_send
  internal_send-Runs zero from to method v params e = Runs-refl e
  internal_send-Runs (suc n) from to method v params e =
      let nested = internal_send m code origin nonce n in
      let before = answer_as e (snapshot e.tree) in
      let r = send m code nested origin nonce none (message_to from to method v params e) before in
      closed-Runs e r.1
        (send-Runs m code nested (internal_send-Runs n) origin nonce none
          (message_to from to method v params e) before refl)
        r.0

  internal_send-shown :
      (depth : ℕ) (from to method : ℕ) (v : ℤ) (params : List ℕ) (e : Exec)
      → let x = internal_send m code origin nonce depth from to method v params e in
        ShownAgain x.0 (view e.tree) (view x.1.tree)
  unfolding internal_send
  internal_send-shown zero from to method v params e = λ j. refl
  internal_send-shown (suc n) from to method v params e =
      let nested = internal_send m code origin nonce n in
      let before = answer_as e (snapshot e.tree) in
      let r = send m code nested origin nonce none (message_to from to method v params e) before in
      closed-shown e r.1
        (send-Runs m code nested (internal_send-Runs n) origin nonce none
          (message_to from to method v params e) before refl)
        r.0

  -- A send by an actor that ends with an error leaves every actor as it was and the snapshots
  -- below, and does not use more gas than was available, if no more was used before.
  pub internal_send_undone :
      (depth : ℕ) (from to method : ℕ) (v : ℤ) (params : List ℕ) (e e' : Exec) (err : ActorError)
      → internal_send m code origin nonce depth from to method v params e ≡ (errored err, e')
      → e.meter.gas_used ≤ℤ e.meter.gas_available
      → ((j : ℕ) → view e'.tree j ≡ view e.tree j)
        × (e'.tree.below ≡ e.tree.below)
        × (e'.meter.gas_available ≡ e.meter.gas_available)
        × (e'.meter.gas_used ≤ℤ e'.meter.gas_available)
  internal_send_undone depth from to method v params e e' err q h =
      let k : Runs e e' =
        subst (λ x. Runs e x.1) q (internal_send-Runs depth from to method v params e) in
      (
        subst (λ x. ShownAgain x.0 (view e.tree) (view x.1.tree)) q
            (internal_send-shown depth from to method v params e),
        k.keeps.same_below,
        k.limits.same_available,
        k.limits.within h,
      )
