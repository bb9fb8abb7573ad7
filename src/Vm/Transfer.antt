-- ===== src/Vm/Transfer.antt =====
-- Moving funds between actors: transfer, transferToGasHolder, transferFromGasHolder and
-- incrementNonce of chain/vm/vm.go. `resolve` stands for LookupID of the state tree, which asks the
-- init actor; an address that it returns is an ID, which LookupID leaves as it is, so that actors are
-- read and written by it.
pub mod Moves
use filecoin.Base.{ℕ, ◌+◌, Bool, true, false, if◌then◌else◌, ◌==◌, Option, none, some, nat_eq}
use filecoin.Base.Int.{ℤ, pos, ◌+ℤ◌, ◌-ℤ◌, ltb_ℤ}
use filecoin.ChainTypes.Actor.{Actor}
use filecoin.ChainTypes.Message.{u64}
use filecoin.StateTree.{StateTree, Found, actor, not_found, get_actor, set_actor}

-- Fatal errors stop the node; the others are exit codes of the message.
pub data Outcome : Type 0 where
  done fatal forbidden insufficient_funds : Outcome

unfoldable pub deduct_funds : Actor → ℤ → Option Actor
deduct_funds act amt =
    if ltb_ℤ act.balance amt then none else some (record act { balance = act.balance -ℤ amt })

unfoldable pub deposit_funds : Actor → ℤ → Actor
deposit_funds act amt = record act { balance = act.balance +ℤ amt }

-- transfer after both actors are read, by what is left of the sender
unfoldable pub write_both : ℕ → ℕ → ℤ → Option Actor → Actor → StateTree → StateTree × Outcome
unfolding deposit_funds set_actor
write_both f t amt none b st = (st, insufficient_funds)
write_both f t amt (some a) b st = (set_actor t (deposit_funds b amt) (set_actor f a st), done)

unfoldable pub transfer_to : ℕ → ℕ → ℤ → Actor → Found × StateTree → StateTree × Outcome
unfolding write_both deduct_funds
transfer_to f t amt a (not_found, st) = (st, fatal)
transfer_to f t amt a (actor b, st) = write_both f t amt (deduct_funds a amt) b st

unfoldable pub transfer_from : ℕ → ℕ → ℤ → Found × StateTree → StateTree × Outcome
unfolding transfer_to get_actor
transfer_from f t amt (not_found, st) = (st, fatal)
transfer_from f t amt (actor a, st) = transfer_to f t amt a (get_actor t st)

unfoldable pub transfer_ids : ℤ → StateTree → Option ℕ → Option ℕ → StateTree × Outcome
unfolding transfer_from
transfer_ids amt st none t = (st, fatal)
transfer_ids amt st (some f) none = (st, fatal)
transfer_ids amt st (some f) (some t) =
    if f == t
    then (st, done)
    else if ltb_ℤ amt (pos 0)
    then (st, forbidden)
    else transfer_from f t amt (get_actor f st)

unfoldable pub transfer : (ℕ → Option ℕ) → ℕ → ℕ → ℤ → StateTree → StateTree × Outcome
unfolding transfer_ids
transfer resolve from to amt st =
    if from == to then (st, done) else transfer_ids amt st (resolve from) (resolve to)
