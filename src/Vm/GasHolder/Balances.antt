-- ===== src/Vm/GasHolder/Balances.antt =====
-- What the gas holder of chain/vm/vm.go has after a transfer that succeeded.
use filecoin.Base.{ℕ, ◌≡◌, refl, true, false, Option, none, some, arith}
use filecoin.Base.Int.{ℤ, ◌+ℤ◌, ◌-ℤ◌}
use filecoin.ChainTypes.Actor.{Actor}
use filecoin.StateTree.{StateTree, Found, actor, not_found, get_actor}
use filecoin.Vm.Transfer.{deduct_funds, deposit_funds}
use filecoin.Vm.GasHolder.{
  Settled, write_back, mutate_found, mutate_actor, paired, paired_holder, transfer_to_gas_holder,
  transfer_from_gas_holder, increment_nonce,
}

-- The holder of a step that succeeded has the balance.
abbrev pub Has : ℤ → Settled → Type 0
Has n (st, holder, true) = holder.balance ≡ n
Has n (st, holder, false) = Unit

-- What the function makes of any actor has the holder with the balance.
abbrev HasIf : ℤ → Option (Actor × Actor) → Type 0
HasIf n none = Unit
HasIf n (some (act, holder)) = holder.balance ≡ n

module _ (n : ℤ) (holder : Actor) (f : Actor → Option (Actor × Actor))
    (makes : (act : Actor) → HasIf n (f act)) where
  write_back-Has :
      (a : ℕ) (o : Option (Actor × Actor)) (st : StateTree)
      → HasIf n o
      → Has n (write_back a holder o st)
  unfolding write_back
  write_back-Has a none st h = tt
  write_back-Has a (some (act, holder')) st h = h

  mutate_found-Has : (a : ℕ) (r : Found) (st : StateTree) → Has n (mutate_found a holder f (r, st))
  unfolding mutate_found
  mutate_found-Has a not_found st = tt
  mutate_found-Has a (actor act) st = write_back-Has a (f act) st (makes act)

  mutate_actor-Has : (o : Option ℕ) (st : StateTree) → Has n (mutate_actor o holder f st)
  unfolding mutate_actor
  mutate_actor-Has none st = tt
  mutate_actor-Has (some a) st = mutate_found-Has a (get_actor a st).0 (get_actor a st).1

module _ (resolve : ℕ → Option ℕ) (addr : ℕ) (holder : Actor) (amt : ℤ) (st : StateTree) where
  pub to_gas_holder-Has :
      Has (holder.balance +ℤ amt) (transfer_to_gas_holder resolve addr holder amt st)
  unfolding transfer_to_gas_holder
  to_gas_holder-Has = ground (
    arith,
    mutate_actor-Has (holder.balance +ℤ amt) holder
        (λ a. paired (deposit_funds holder amt) (deduct_funds a amt))
        (λ act. deposited (deduct_funds act amt)) (resolve addr) st,
  )
    where
      deposited :
          (o : Option Actor) → HasIf (holder.balance +ℤ amt) (paired (deposit_funds holder amt) o)
      deposited none = tt
      deposited (some act) = ground arith

  pub from_gas_holder-Has :
      Has (holder.balance -ℤ amt) (transfer_from_gas_holder resolve addr holder amt st)
  unfolding transfer_from_gas_holder deduct_funds
  from_gas_holder-Has = ground (
    arith,
    mutate_actor-Has (holder.balance -ℤ amt) holder
        (λ a. paired_holder (deposit_funds a amt) (deduct_funds holder amt))
        (λ act. deducted (deposit_funds act amt)) (resolve addr) st,
  )
    where
      deducted :
          (act : Actor)
          → HasIf (holder.balance -ℤ amt) (paired_holder act (deduct_funds holder amt))
      deducted act = ground arith

pub increment_nonce-Has :
    (resolve : ℕ → Option ℕ) (addr : ℕ) (holder : Actor) (st : StateTree)
    → Has holder.balance (increment_nonce resolve addr holder st)
unfolding increment_nonce
increment_nonce-Has resolve addr holder st =
    mutate_actor-Has holder.balance holder _ (λ act. refl) (resolve addr) st
