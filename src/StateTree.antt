-- ===== src/StateTree.antt =====
-- chain/state/statetree.go: actors by ID, over layers of snapshots and a root map. The head of
-- the list of layers is the newest, the last element of the source's slice; a tree always has one.
-- The root is a HAMT of a library, which the code calls as a map.
pub mod View
pub mod Snapshots
pub mod Solvent
pub mod Keeps
use filecoin.Base.{
  ℕ, List, [], ◌∷◌, Bool, true, false, Option, none, some, nat_eq, if◌then◌else◌, ◌>>=◌,
}
use filecoin.Base.Map.{Map, find, put, erase}
use filecoin.ChainTypes.Actor.{Actor}

-- streeOp: an actor, or that it is deleted
pub data Op : Type 0 where
  stored : Actor → Op
  deleted : Op

pub record StateTree : Type 0 where
  pub root : Map ℕ Actor
  pub top : Map ℕ Op
  pub below : List (Map ℕ Op)

pub data Found : Type 0 where
  actor : Actor → Found
  not_found : Found

unfoldable pub new_state_tree : Map ℕ Actor → StateTree
new_state_tree root = record { root = root; top = []; below = [] }

-- stateSnaps.getActor: the entry of the newest layer that has one
unfoldable pub snap_actor : ℕ → Map ℕ Op → List (Map ℕ Op) → Option Op
snap_actor a top [] = find a top
snap_actor a top (l ∷ ls) = elim (find a top) [ some op ↦ some op | none ↦ snap_actor a l ls ]

unfoldable pub set_actor : ℕ → Actor → StateTree → StateTree
set_actor a act st = record st { top = put a (stored act) st.top }

-- by the entry of the layers, and of the root; an actor read from the root is kept in the top layer
unfoldable pub read_actor : ℕ → Option Op → Option Actor → StateTree → Found × StateTree
unfolding set_actor
read_actor a (some (stored act)) _ st = (actor act, st)
read_actor a (some deleted) _ st = (not_found, st)
read_actor a none none st = (not_found, st)
read_actor a none (some act) st = (actor act, set_actor a act st)

unfoldable pub get_actor : ℕ → StateTree → Found × StateTree
unfolding read_actor snap_actor
get_actor a st = read_actor a (snap_actor a st.top st.below) (find a st.root) st

-- DeleteActor after the actor has been found, by what GetActor returned
unfoldable pub mark_deleted : ℕ → Found × StateTree → Option StateTree
mark_deleted a (not_found, st) = none
mark_deleted a (actor act, st) = some (record st { top = put a deleted st.top })

unfoldable pub delete_actor : ℕ → StateTree → Option StateTree
unfolding get_actor mark_deleted
delete_actor a st = mark_deleted a (get_actor a st)

-- Snapshot
unfoldable pub snapshot : StateTree → StateTree
snapshot st = record st { top = []; below = st.top ∷ st.below }

-- the entries of `last` written over those of `next`
unfoldable pub merge : Map ℕ Op → Map ℕ Op → Map ℕ Op
merge [] next = next
merge ((k, v) ∷ last) next = merge last (put k v next)

-- ClearSnapshot; with one layer the index is out of range, a panic
unfoldable pub clear_snapshot : StateTree → Option StateTree
unfolding merge
clear_snapshot st = elim st.below [
  | [] ↦ none
  | l ∷ ls ↦ some (record { root = st.root; top = merge st.top l; below = ls })
]

-- Revert
unfoldable pub revert : StateTree → StateTree
revert st = record st { top = [] }

-- Whether Put and Delete of the HAMT succeed at a key; where they do, they act as on a map.
pub record Hamt : Type 0 where
  pub can_put : ℕ → Map ℕ Actor → Bool
  pub can_delete : ℕ → Map ℕ Actor → Bool

unfoldable pub write_op : Hamt → ℕ → Op → Map ℕ Actor → Option (Map ℕ Actor)
write_op h k (stored act) root = if h.can_put k root then some (put k act root) else none
write_op h k deleted root = if h.can_delete k root then some (erase k root) else none

unfoldable pub write_all : Hamt → Map ℕ Op → Map ℕ Actor → Option (Map ℕ Actor)
unfolding write_op
write_all h [] root = some root
write_all h ((k, op) ∷ ops) root = write_op h k op root >>= write_all h ops

-- Flush; it refuses a tree with snapshots on the stack
unfoldable pub flush : Hamt → StateTree → Option (Map ℕ Actor)
unfolding write_all
flush h st = elim st.below [ [] ↦ write_all h st.top st.root | l ∷ ls ↦ none ]
