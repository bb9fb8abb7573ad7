-- ===== src/Vm/GasHolder.antt =====
-- The account that holds the gas while a message runs: transferToGasHolder, transferFromGasHolder
-- and incrementNonce of chain/vm/vm.go, each by MutateActor of chain/state/statetree.go.
pub mod Settles
pub mod Steady
pub mod Balances
use filecoin.Base.{ℕ, ◌+◌, Bool, true, false, if◌then◌else◌, Option, none, some}
use filecoin.Base.Int.{ℤ, pos, ltb_ℤ}
use filecoin.ChainTypes.Actor.{Actor}
use filecoin.ChainTypes.Message.{u64}
use filecoin.StateTree.{StateTree, Found, actor, not_found, get_actor, set_actor}
use filecoin.Vm.Transfer.{deduct_funds, deposit_funds}

-- The tree, the gas holder, and whether there was no error.
abbrev pub Settled : Type 0
Settled = StateTree × Actor × Bool

-- MutateActor after the actor is read, by what the function makes of it and of the gas holder
unfoldable pub write_back : ℕ → Actor → Option (Actor × Actor) → StateTree → Settled
unfolding set_actor
write_back a holder none st = (st, holder, false)
write_back a holder (some (act, holder')) st = (set_actor a act st, holder', true)

unfoldable pub mutate_found :
    ℕ → Actor → (Actor → Option (Actor × Actor)) → Found × StateTree → Settled
unfolding write_back
mutate_found a holder f (not_found, st) = (st, holder, false)
mutate_found a holder f (actor act, st) = write_back a holder (f act) st

unfoldable pub mutate_actor :
    Option ℕ → Actor → (Actor → Option (Actor × Actor)) → StateTree → Settled
unfolding mutate_found get_actor
mutate_actor none holder f st = (st, holder, false)
mutate_actor (some a) holder f st = mutate_found a holder f (get_actor a st)

abbrev pub paired : Actor → Option Actor → Option (Actor × Actor)
paired other none = none
paired other (some act) = some (act, other)

abbrev pub paired_holder : Actor → Option Actor → Option (Actor × Actor)
paired_holder act none = none
paired_holder act (some holder) = some (act, holder)

unfoldable pub transfer_to_gas_holder : (ℕ → Option ℕ) → ℕ → Actor → ℤ → StateTree → Settled
unfolding mutate_actor deduct_funds deposit_funds
transfer_to_gas_holder resolve addr holder amt st =
    if ltb_ℤ amt (pos 0)
    then (st, holder, false)
    else mutate_actor (resolve addr) holder
        (λ a. paired (deposit_funds holder amt) (deduct_funds a amt)) st

unfoldable pub transfer_from_gas_holder : (ℕ → Option ℕ) → ℕ → Actor → ℤ → StateTree → Settled
unfolding mutate_actor deduct_funds deposit_funds
transfer_from_gas_holder resolve addr holder amt st =
    if ltb_ℤ amt (pos 0)
    then (st, holder, false)
    else mutate_actor (resolve addr) holder
        (λ a. paired_holder (deposit_funds a amt) (deduct_funds holder amt)) st

unfoldable pub increment_nonce : (ℕ → Option ℕ) → ℕ → Actor → StateTree → Settled
unfolding mutate_actor
increment_nonce resolve addr holder st =
    mutate_actor (resolve addr) holder (λ a. some (record a { nonce = u64 (a.nonce + 1) }, holder))
      st
