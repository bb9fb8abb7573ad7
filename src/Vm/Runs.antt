-- ===== src/Vm/Runs.antt =====
-- What no run of an actor's code changes in chain/vm: the layers of the tree below the newest one,
-- and the limit of the gas, which is never passed.

pub mod Calls
pub mod Programs
pub mod Sends
pub mod Nested
use filecoin.Base.{
  ℕ, ◌≡◌, refl, ◌∙◌, Bool, true, false, Option, none, some, nat_eq, arith, if◌then◌else◌, subst,
  Bool-cases, inl, inr,
}
use filecoin.Base.Int.{ℤ, pos, ◌≤ℤ◌, ltb_ℤ, +ℤ_parts, -ℤ_parts}
use filecoin.ChainTypes.Actor.{Actor}
use filecoin.StateTree.{StateTree, Found, actor, not_found, get_actor, set_actor, delete_actor}
use filecoin.StateTree.Keeps.{
  Keeps, Keeps-refl, Keeps-trans, KeepsIf, set_after-Keeps, get_actor-Keeps, delete_actor-Keeps,
}
use filecoin.StateTree.Solvent.{Solvent, Covered, get_actor-Covered}
use filecoin.Vm.Gas.{GasCharge}
use filecoin.Vm.Gas.Charge.{Meter, charge_gas, charge_gas_limit, charge_gas_available}
use filecoin.Vm.Transfer.{
  Outcome, deduct_funds, deposit_funds, write_both, transfer_to, transfer_from, transfer_ids,
  transfer,
}
use filecoin.Vm.Machine.{
  Machine, Lookup, resolved, no_address, failed, FoundAt, found, found_at, get_resolved, actor_at,
  set_resolved, set_actor_at, delete_resolved, delete_actor_at, register_by, register_in,
  register_new_address, lookup_id, id_of,
}
use filecoin.Vm.Runtime.{Exec, Result, value, raised, charge, charge_dropped, answer_as}

pub record Limits (a b : Meter) : Type 0 where
  pub same_available : b.gas_available ≡ a.gas_available
  pub within : a.gas_used ≤ℤ a.gas_available → b.gas_used ≤ℤ b.gas_available

pub record Runs (e e' : Exec) : Type 0 where
  pub keeps : Keeps e.tree e'.tree
  pub limits : Limits e.meter e'.meter

pub Limits-refl : (a : Meter) → Limits a a
Limits-refl a = record { same_available = refl; within = λ h. h }

pub Runs-refl : (e : Exec) → Runs e e
Runs-refl e = record { keeps = Keeps-refl e.tree; limits = Limits-refl e.meter }

pub Runs-trans : (a b c : Exec) → Runs a b → Runs b c → Runs a c
Runs-trans a b c p q = record {
  keeps = Keeps-trans a.tree b.tree c.tree p.keeps q.keeps;
  limits = record {
    same_available = q.limits.same_available ∙ p.limits.same_available;
    within = λ h. q.limits.within (p.limits.within h);
  };
}

-- A tree that is written back.
pub answer_as-Runs : (e : Exec) (st : StateTree) → Keeps e.tree st → Runs e (answer_as e st)
answer_as-Runs e st k = record { keeps = k; limits = Limits-refl e.meter }

pub charge_gas-Limits : (rt : Meter) (g : GasCharge) → Limits rt (charge_gas rt g).1
charge_gas-Limits rt g = record {
  same_available = charge_gas_available rt g;
  within = λ h. ground (arith, charge_gas_limit rt g h);
}

pub charge-Runs : (g : GasCharge) (e : Exec) → Runs e (charge g e).1
unfolding charge
charge-Runs g e = record { keeps = Keeps-refl e.tree; limits = charge_gas-Limits e.meter g }

pub charge_dropped-Runs : (g : GasCharge) (e : Exec) → Runs e (charge_dropped g e)
unfolding charge_dropped
charge_dropped-Runs g e = record { keeps = Keeps-refl e.tree; limits = charge_gas-Limits e.meter g }

module _ (m : Machine) where
  found_at-Keeps :
      (st : StateTree) (r : Found) (st' : StateTree) → Keeps st st' → Keeps st (found_at (r, st')).1
  found_at-Keeps st not_found st' k = k
  found_at-Keeps st (actor act) st' k = k

  get_resolved-Keeps : (st : StateTree) (l : Lookup) → Keeps st (get_resolved m st l).1
  unfolding get_resolved
  get_resolved-Keeps st (resolved a) =
      found_at-Keeps st (get_actor a st).0 (get_actor a st).1 (get_actor-Keeps a st)
  get_resolved-Keeps st no_address = Keeps-refl st
  get_resolved-Keeps st failed = Keeps-refl st

  pub actor_at-Keeps : (addr : ℕ) (st : StateTree) → Keeps st (actor_at m addr st).1
  unfolding actor_at
  actor_at-Keeps addr st =
      ground (arith, Keeps-refl st, get_resolved-Keeps st (lookup_id m st addr))

  set_resolved-Keeps :
      (act : Actor) (st0 st : StateTree) (o : Option ℕ)
      → Keeps st0 st
      → (Solvent st0 → Covered act)
      → KeepsIf st0 (set_resolved m act st o)
  unfolding set_resolved
  set_resolved-Keeps act st0 st none k c = tt
  set_resolved-Keeps act st0 st (some a) k c = set_after-Keeps a act st0 st k c

  pub set_actor_at-Keeps :
      (addr : ℕ) (act : Actor) (st0 st : StateTree)
      → Keeps st0 st
      → (Solvent st0 → Covered act)
      → KeepsIf st0 (set_actor_at m addr act st)
  unfolding set_actor_at
  set_actor_at-Keeps addr act st0 st k c = set_resolved-Keeps act st0 st (id_of m st addr) k c

  found_at-Covered :
      (act : Actor) (st : StateTree) (r : Found) (st' : StateTree)
      → ((b : Actor) → r ≡ actor b → Solvent st → Covered b)
      → (found_at (r, st')).0 ≡ found act
      → Solvent st
      → Covered act
  found_at-Covered act st not_found st' h q s = absurd (cc)
  found_at-Covered act st (actor b) st' h q s =
      let same : b ≡ act = cc q in subst Covered same (h b refl s)

  get_resolved-Covered :
      (act : Actor) (st : StateTree) (l : Lookup)
      → (get_resolved m st l).0 ≡ found act
      → Solvent st
      → Covered act
  unfolding get_resolved
  get_resolved-Covered act st (resolved a) q s =
      found_at-Covered act st (get_actor a st).0 (get_actor a st).1
        (λ b e t. get_actor-Covered a st b t e) q s
  get_resolved-Covered act st no_address q s = absurd (cc)
  get_resolved-Covered act st failed q s = absurd (cc)

  -- An actor that is found has no balance below 0.
  pub actor_at-Covered :
      (addr : ℕ) (st : StateTree) (act : Actor)
      → (actor_at m addr st).0 ≡ found act
      → Solvent st
      → Covered act
  unfolding actor_at
  actor_at-Covered addr st act q s =
      ground (arith, get_resolved-Covered act st (lookup_id m st addr))

  delete_resolved-Keeps : (st : StateTree) (o : Option ℕ) → KeepsIf st (delete_resolved m st o)
  unfolding delete_resolved
  delete_resolved-Keeps st none = tt
  delete_resolved-Keeps st (some a) = delete_actor-Keeps a st

  pub delete_actor_at-Keeps : (addr : ℕ) (st : StateTree) → KeepsIf st (delete_actor_at m addr st)
  unfolding delete_actor_at
  delete_actor_at-Keeps addr st = ground (arith, delete_resolved-Keeps st (id_of m st addr))

  register_by-Keeps :
      (st st' : StateTree) (act : Actor) (o : Option (ℕ × ℕ))
      → Keeps st st'
      → (Solvent st → Covered act)
      → Keeps st (register_by m st' act o).1
  unfolding register_by
  register_by-Keeps st st' act none k c = k
  register_by-Keeps st st' act (some (a, head)) k c =
      set_after-Keeps m.init_address (record act { head = head }) st st' k c

  register_in-Keeps :
      (addr : ℕ) (st : StateTree) (r : Found) (st' : StateTree)
      → Keeps st st'
      → ((act : Actor) → r ≡ actor act → Solvent st → Covered act)
      → Keeps st (register_in m addr (r, st')).1
  unfolding register_in
  register_in-Keeps addr st not_found st' k c = k
  register_in-Keeps addr st (actor act) st' k c =
      register_by-Keeps st st' act (m.map_to_new_id act.head addr) k (c act refl)

  pub register_new_address-Keeps :
      (addr : ℕ) (st : StateTree) → Keeps st (register_new_address m addr st).1
  unfolding register_new_address
  register_new_address-Keeps addr st =
      register_in-Keeps addr st (get_actor m.init_address st).0 (get_actor m.init_address st).1
        (get_actor-Keeps m.init_address st) (λ act e s. get_actor-Covered m.init_address st act s e)

pub deposited-Covered :
    (b : Actor) (amt : ℤ) → ltb_ℤ amt (pos 0) ≡ false → Covered b → Covered (deposit_funds b amt)
unfolding deposit_funds
deposited-Covered b amt n c = ground (arith, +ℤ_parts b.balance amt, n, c)

-- What is left of an actor who has the amount.
abbrev pub CoveredIf : Option Actor → Type 0
CoveredIf none = Unit
CoveredIf (some a) = Covered a

pub deducted-Covered : (a : Actor) (amt : ℤ) → CoveredIf (deduct_funds a amt)
unfolding deduct_funds
deducted-Covered a amt = ground (arith, -ℤ_parts a.balance amt)

module _ (f t : ℕ) (amt : ℤ) (fine : ltb_ℤ amt (pos 0) ≡ false) where
  write_both-Keeps :
      (st st' : StateTree) (o : Option Actor) (b : Actor)
      → Keeps st st'
      → CoveredIf o
      → (Solvent st → Covered b)
      → Keeps st (write_both f t amt o b st').0
  unfolding write_both
  write_both-Keeps st st' none b k a c = k
  write_both-Keeps st st' (some a) b k d c =
      set_after-Keeps t (deposit_funds b amt) st (set_actor f a st')
        (set_after-Keeps f a st st' k (λ s. d)) (λ s. deposited-Covered b amt fine (c s))

  transfer_to-Keeps :
      (st : StateTree) (a : Actor) (r : Found) (st' : StateTree)
      → Keeps st st'
      → ((b : Actor) → r ≡ actor b → Solvent st → Covered b)
      → Keeps st (transfer_to f t amt a (r, st')).0
  unfolding transfer_to
  transfer_to-Keeps st a not_found st' k c = k
  transfer_to-Keeps st a (actor b) st' k c =
      write_both-Keeps st st' (deduct_funds a amt) b k (deducted-Covered a amt) (c b refl)

  transfer_from-Keeps :
      (st : StateTree) (r : Found) (st' : StateTree)
      → Keeps st st'
      → Keeps st (transfer_from f t amt (r, st')).0
  unfolding transfer_from
  transfer_from-Keeps st not_found st' k = k
  transfer_from-Keeps st (actor a) st' k =
      transfer_to-Keeps st a (get_actor t st').0 (get_actor t st').1
        (Keeps-trans st st' _ k (get_actor-Keeps t st'))
        (λ b e s. get_actor-Covered t st' b (k.solvent s) e)

transfer_ids-Keeps :
    (amt : ℤ) (st : StateTree) (f t : Option ℕ) → Keeps st (transfer_ids amt st f t).0
unfolding transfer_ids
transfer_ids-Keeps amt st none t = Keeps-refl st
transfer_ids-Keeps amt st (some f) none = Keeps-refl st
transfer_ids-Keeps amt st (some f) (some t) = elim (Bool-cases (ltb_ℤ amt (pos 0))) [
  | inl n ↦ rw n (ground (arith, Keeps-refl st))
  | inr n ↦ rw n (
      ground (
        arith,
        Keeps-refl st,
        transfer_from-Keeps f t amt n st (get_actor f st).0 (get_actor f st).1
            (get_actor-Keeps f st),
      ))
]

pub transfer-Keeps :
    (resolve : ℕ → Option ℕ) (from to : ℕ) (amt : ℤ) (st : StateTree)
    → Keeps st (transfer resolve from to amt st).0
unfolding transfer
transfer-Keeps resolve from to amt st =
    ground (arith, Keeps-refl st, transfer_ids-Keeps amt st (resolve from) (resolve to))
