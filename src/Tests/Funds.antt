-- ===== src/Tests/Funds.antt =====
-- Funds that move between the actors of a small state tree.
use filecoin.Base.{ℕ, ◌≡◌, refl, [], ◌∷◌, true, Option, some}
use filecoin.Base.Int.{pos, ◌+ℤ◌}
use filecoin.Base.Map.{find}
use filecoin.ChainTypes.Actor.{Actor}
use filecoin.StateTree.{StateTree, stored, snap_actor}
use filecoin.StateTree.View.{view}
use filecoin.Vm.Transfer.{transfer}
use filecoin.Vm.Transfer.Moves.{Transferred, transfer_moves}
use filecoin.Vm.GasHolder.{transfer_to_gas_holder, transfer_from_gas_holder}
use filecoin.Vm.GasHolder.Settles.{Emptied, gas_holder_empties}
use filecoin.Tests.{actor_with}

-- Every address is an ID.
abbrev resolve : ℕ → Option ℕ
resolve a = some a

abbrev start : StateTree
start = record { root = (1, actor_with 0 100) ∷ (2, actor_with 0 20) ∷ []; top = []; below = [] }

-- after the message, which has moved 5 from the actor 1 to the actor 3
abbrev ran : StateTree
ran = record start { top = (1, stored (actor_with 1 65)) ∷ (3, stored (actor_with 0 5)) ∷ [] }

abbrev holder : Actor
holder = actor_with 0 0

transfer_moves_example :
    Transferred 1 2 (pos 30) (view start) (transfer resolve 1 2 (pos 30) start) 1
transfer_moves_example = transfer_moves resolve 1 2 (pos 30) start 1 2 1 refl refl refl

sender : view start 1 ≡ some (actor_with 0 100)
unfolding snap_actor find
sender = refl

sender_after : view ran 1 ≡ some (actor_with 1 65)
unfolding snap_actor find
sender_after = refl

reward_actor : view ran 2 ≡ some (actor_with 0 20)
unfolding snap_actor find
reward_actor = refl

parts : pos 10 +ℤ pos 20 ≡ pos 30
unfolding ◌+ℤ◌
parts = refl

gas_holder_empties_example :
    let taken = transfer_to_gas_holder resolve 1 holder (pos 30) start in
    let given = transfer_from_gas_holder resolve 1 taken.1 (pos 10) ran in
    (taken.2 ≡ true)
    × (given.2 ≡ true)
    × Emptied 1 2
        (pos 10)
        (pos 20)
        (actor_with 1 65)
        (actor_with 0 20)
        (transfer_from_gas_holder resolve 2 given.1 (pos 20) given.0)
gas_holder_empties_example =
    gas_holder_empties resolve 1 2 1 2 refl refl refl (pos 30) (pos 10) (pos 20) holder
      (actor_with 0 100) (actor_with 1 65) (actor_with 0 20) start ran refl refl refl parts sender
      refl sender_after reward_actor
