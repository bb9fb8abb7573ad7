-- ===== src/Vm/GasHolder/Steady.antt =====
-- The transfers with the gas holder of chain/vm/vm.go leave the older layers of the tree.
use filecoin.Base.{ℕ, Option, none, some, arith, ◌≡◌, refl, ◌+◌, Bool-cases, inl, inr}
use filecoin.Base.Int.{ℤ, pos, ltb_ℤ}
use filecoin.ChainTypes.Actor.{Actor}
use filecoin.StateTree.{StateTree, Found, actor, not_found, get_actor}
use filecoin.ChainTypes.Message.{u64}
use filecoin.StateTree.Keeps.{Keeps, Keeps-refl, set_after-Keeps, get_actor-Keeps}
use filecoin.StateTree.Solvent.{Solvent, Covered, get_actor-Covered}
use filecoin.Vm.Runs.{CoveredIf, deducted-Covered, deposited-Covered}
use filecoin.Vm.Transfer.{deduct_funds, deposit_funds}
use filecoin.Vm.GasHolder.{
  write_back, mutate_found, mutate_actor, paired, paired_holder, transfer_to_gas_holder,
  transfer_from_gas_holder, increment_nonce,
}

-- What a function makes of an actor that has no balance below 0.
abbrev CoveredPair : Option (Actor × Actor) → Type 0
CoveredPair none = Unit
CoveredPair (some (act, holder)) = Covered act

module _ (holder : Actor) (f : Actor → Option (Actor × Actor))
    (covers : (act : Actor) → Covered act → CoveredPair (f act)) where
  write_back-Keeps :
      (a : ℕ) (st st' : StateTree) (o : Option (Actor × Actor))
      → Keeps st st'
      → (Solvent st → CoveredPair o)
      → Keeps st (write_back a holder o st').0
  unfolding write_back
  write_back-Keeps a st st' none k c = k
  write_back-Keeps a st st' (some (act, h)) k c = set_after-Keeps a act st st' k c

  mutate_found-Keeps :
      (a : ℕ) (st : StateTree) (r : Found) (st' : StateTree)
      → Keeps st st'
      → ((act : Actor) → r ≡ actor act → Solvent st → Covered act)
      → Keeps st (mutate_found a holder f (r, st')).0
  unfolding mutate_found
  mutate_found-Keeps a st not_found st' k c = k
  mutate_found-Keeps a st (actor act) st' k c =
      write_back-Keeps a st st' (f act) k (λ s. covers act (c act refl s))

  mutate_actor-Keeps : (o : Option ℕ) (st : StateTree) → Keeps st (mutate_actor o holder f st).0
  unfolding mutate_actor
  mutate_actor-Keeps none st = Keeps-refl st
  mutate_actor-Keeps (some a) st =
      mutate_found-Keeps a st (get_actor a st).0 (get_actor a st).1 (get_actor-Keeps a st)
        (λ act e s. get_actor-Covered a st act s e)

deducted : (holder : Actor) (o : Option Actor) → CoveredIf o → CoveredPair (paired holder o)
deducted holder none c = tt
deducted holder (some act) c = c

deposited : (act : Actor) (o : Option Actor) → Covered act → CoveredPair (paired_holder act o)
deposited act none c = tt
deposited act (some holder) c = c

module _ (resolve : ℕ → Option ℕ) (addr : ℕ) (holder : Actor) (st : StateTree) where
  pub to_gas_holder-Keeps :
      (amt : ℤ) → Keeps st (transfer_to_gas_holder resolve addr holder amt st).0
  unfolding transfer_to_gas_holder
  to_gas_holder-Keeps amt = ground (
    arith,
    Keeps-refl st,
    mutate_actor-Keeps holder (λ a. paired (deposit_funds holder amt) (deduct_funds a amt))
        (λ act c.
          deducted (deposit_funds holder amt) (deduct_funds act amt) (deducted-Covered act amt))
        (resolve addr) st,
  )

  pub from_gas_holder-Keeps :
      (amt : ℤ) → Keeps st (transfer_from_gas_holder resolve addr holder amt st).0
  unfolding transfer_from_gas_holder
  from_gas_holder-Keeps amt = elim (Bool-cases (ltb_ℤ amt (pos 0))) [
    | inl n ↦ rw n (Keeps-refl st)
    | inr n ↦ rw n (
        mutate_actor-Keeps holder
          (λ a. paired_holder (deposit_funds a amt) (deduct_funds holder amt))
          (λ act c.
            deposited (deposit_funds act amt) (deduct_funds holder amt)
              (deposited-Covered act amt n c))
          (resolve addr) st)
  ]

  pub increment_nonce-Keeps : Keeps st (increment_nonce resolve addr holder st).0
  unfolding increment_nonce
  increment_nonce-Keeps =
      mutate_actor-Keeps holder (λ a. some (record a { nonce = u64 (a.nonce + 1) }, holder))
        (λ act c. c) (resolve addr) st
