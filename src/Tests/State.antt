-- ===== src/Tests/State.antt =====
-- A state tree with an actor at the root and a change on top, and a meter of gas.
use filecoin.Base.{true, Option, ℕ, ◌≡◌, refl, [], ◌∷◌, some, if◌then◌else◌, ◌==◌, nat_eq}
use filecoin.Base.Int.{pos}
use filecoin.Base.Map.{Map, find, put, Distinct}
use filecoin.Base.Lists.{All}
use filecoin.ChainTypes.Actor.{Actor}
use filecoin.StateTree.{StateTree, stored, deleted, get_actor, set_actor, Hamt, flush}
use filecoin.ChainTypes.Actor.{Actor}
use filecoin.StateTree.View.{Stands, view, result, view-set_actor, get_actor-view, flush-view}
use filecoin.StateTree.Snapshots.{restore, Meets, promise, run_command, states, run_command_refines}
use filecoin.Vm.Gas.{Numbers, PricelistV0, prices_v0, pricelist_by_epoch}
use filecoin.Vm.Gas.Epochs.{InForce, pricelist_by_epoch-InForce}
use filecoin.Tests.{actor_with}

abbrev tree : StateTree
tree = record {
  root = (1, actor_with 0 10) ∷ (2, actor_with 0 20) ∷ [];
  top = (1, deleted) ∷ (3, stored (actor_with 1 5)) ∷ [];
  below = [];
}

abbrev layered : StateTree
layered = record tree { below = ((2, deleted) ∷ []) ∷ [] }

abbrev written : Map ℕ Actor
written = (3, actor_with 1 5) ∷ (2, actor_with 0 20) ∷ []

view-set_actor_example :
    view (set_actor 1 (actor_with 4 4) tree) 2
    ≡ (if 1 == 2 then some (actor_with 4 4) else view tree 2)
view-set_actor_example = view-set_actor tree 1 2 (actor_with 4 4)

get_actor-view_example :
    (o : Option Actor) × Stands tree 2 o
    × ((get_actor 2 tree).0 ≡ result o)
    × (view (get_actor 2 tree).1 1 ≡ view tree 1)
get_actor-view_example = get_actor-view tree 2 1

abbrev hamt : Hamt
hamt = record { can_put = λ k root. true; can_delete = λ k root. true }

flushes : flush hamt tree ≡ some written
unfolding flush put
flushes = refl

top-Distinct : Distinct tree.top
unfolding find
top-Distinct = (refl, (refl, tt))

layer-Distinct : All Distinct layered.below
unfolding find
layer-Distinct = ((refl, tt), tt)

flush-view_example : find 2 written ≡ view tree 2
flush-view_example = flush-view hamt tree written 2 top-Distinct flushes

run_command_refines_example : Meets (run_command restore layered) (promise restore (states layered))
unfolding find
run_command_refines_example =
    run_command_refines restore layered
      (record { top_distinct = top-Distinct; below_distinct = layer-Distinct })

abbrev numbers : Numbers
numbers = record {
  sig_bls = 2;
  sig_secp256k1 = 1;
  window_512mib = 6;
  window_32gib = 8;
  window_64gib = 9;
  method_send = 0;
}

-- a table with a second list from epoch 100 on
abbrev table : Map ℕ PricelistV0
table = (100, record (prices_v0 numbers) { hashing_base = pos 1 }) ∷ (0, prices_v0 numbers) ∷ []

from_start : find 0 table ≡ some (prices_v0 numbers)
unfolding find prices_v0
from_start = refl

pricelist_by_epoch-InForce_example :
    (pl : PricelistV0) × (pricelist_by_epoch table 150 ≡ some pl)
    × InForce ((0, prices_v0 numbers) ∷ table) 150 pl
pricelist_by_epoch-InForce_example =
    pricelist_by_epoch-InForce table 150 (prices_v0 numbers) from_start
