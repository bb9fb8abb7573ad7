-- ===== src/StateTree/Snapshots.antt =====
-- The layers implement a stack of saved states: Snapshot saves what the tree shows, Revert goes
-- back to it, ClearSnapshot forgets it.
use mathlib.Core.Path.{fun_ext}
use filecoin.Base.{
  ℕ, ◌≡◌, refl, ap, subst, List, [], ◌∷◌, Option, none, some, nat_eq, if◌then◌else◌, ◌==◌, arith,
}
use filecoin.Base.Lists.{All}
use filecoin.Base.Map.{Map, find, Distinct, put-Distinct}
use filecoin.ChainTypes.Actor.{Actor}
use filecoin.StateTree.{
  Op, stored, deleted, StateTree, Found, actor, not_found, snap_actor, set_actor, read_actor,
  get_actor, mark_deleted, delete_actor, snapshot, merge, clear_snapshot, revert,
}
use filecoin.StateTree.View.{
  shown, view, result, view-set_actor, view-deleted, get_actor_lem, get_actor-below, merge-find,
  merge-Distinct,
}

-- The states of actors: the current one, those saved, the newest first, and the one before any
-- change.
pub record States : Type 0 where
  pub now : ℕ → Option Actor
  pub saved : List (ℕ → Option Actor)
  pub base : ℕ → Option Actor

pub data Command : Type 0 where
  get remove : ℕ → Command
  write : ℕ → Actor → Command
  save restore forget : Command

abbrev pub update : ℕ → Option Actor → (ℕ → Option Actor) → ℕ → Option Actor
update a o f j = if a == j then o else f j

-- The states without the actor at `a`, by what stands there.
abbrev pub without : ℕ → States → Option Actor → Option States
without a s none = none
without a s (some act) = some (record s { now = update a none s.now })

-- What a command promises; `none` where it fails.
abbrev pub promise : Command → States → Option States
promise (get a) s = some s
promise (write a act) s = some (record s { now = update a (some act) s.now })
promise (remove a) s = without a s (s.now a)
promise save s = some (record s { saved = s.now ∷ s.saved })
promise restore s = some (record s { now = elim s.saved [ [] ↦ s.base | f ∷ fs ↦ f ] })
promise forget s = elim s.saved [ [] ↦ none | f ∷ fs ↦ some (record s { saved = fs }) ]

pub run_command : Command → StateTree → Option StateTree
run_command (get a) st = some (get_actor a st).1
run_command (write a act) st = some (set_actor a act st)
run_command (remove a) st = delete_actor a st
run_command save st = some (snapshot st)
run_command restore st = some (revert st)
run_command forget st = clear_snapshot st

saves : Map ℕ Actor → List (Map ℕ Op) → List (ℕ → Option Actor)
saves root [] = []
saves root (l ∷ ls) = (λ j. shown (snap_actor j l ls) (find j root)) ∷ saves root ls

-- The states that a tree stands for.
pub states : StateTree → States
unfolding saves
states st = record { now = view st; saved = saves st.root st.below; base = λ j. find j st.root }

pub record IsTree (st : StateTree) : Type 0 where
  pub top_distinct : Distinct st.top
  pub below_distinct : All Distinct st.below

-- A result of the tree stands for the result that is promised.
abbrev pub Meets : Option StateTree → Option States → Type 0
Meets none none = Unit
Meets none (some s) = ⊥
Meets (some st) none = ⊥
Meets (some st) (some s) = IsTree st × (states st ≡ s)

states_eq :
    (a b : States) → ((j : ℕ) → a.now j ≡ b.now j) → a.saved ≡ b.saved → a.base ≡ b.base → a ≡ b
states_eq a b f g k = λ i. record { now = fun_ext f i; saved = g i; base = k i }

pub read_actor-IsTree :
    (a : ℕ) (st : StateTree) (o : Option Op) (r : Option Actor)
    → IsTree st
    → IsTree (read_actor a o r st).1
unfolding read_actor
read_actor-IsTree a st (some (stored act)) r v = v
read_actor-IsTree a st (some deleted) r v = v
read_actor-IsTree a st none none v = v
read_actor-IsTree a st none (some act) v = record {
  top_distinct = put-Distinct a (stored act) st.top v.top_distinct;
  below_distinct = v.below_distinct;
}

get_meets :
    (a : ℕ) (st : StateTree)
    → IsTree st
    → IsTree (get_actor a st).1 × (states (get_actor a st).1 ≡ states st)
unfolding get_actor states
get_meets a st v = (
  read_actor-IsTree a st (snap_actor a st.top st.below) (find a st.root) v,
  states_eq (states (get_actor a st).1) (states st) (λ j. (get_actor_lem st a j).1)
      (cc (ap saves (get_actor-below a st).1, (get_actor-below a st).0))
      (ap (λ r j. find j r) (get_actor-below a st).1),
)

write-Meets :
    (a : ℕ) (act : Actor) (st : StateTree)
    → IsTree st
    → Meets (some (set_actor a act st)) (promise (write a act) (states st))
unfolding set_actor states
write-Meets a act st v = (
  record {
    top_distinct = put-Distinct a (stored act) st.top v.top_distinct;
    below_distinct = v.below_distinct;
  },
  states_eq _ _ (λ j. view-set_actor st a j act) refl refl,
)

remove-Meets :
    (a : ℕ) (f : Found) (st : StateTree) (o : Option Actor)
    → f ≡ result o
    → view st a ≡ o
    → IsTree st
    → Meets (mark_deleted a (f, st)) (without a (states st) o)
unfolding mark_deleted states
remove-Meets a not_found st none e g v = tt
remove-Meets a not_found st (some act) e g v = absurd (cc)
remove-Meets a (actor b) st none e g v = absurd (cc)
remove-Meets a (actor b) st (some act) e g v = (
  record {
    top_distinct = put-Distinct a deleted st.top v.top_distinct;
    below_distinct = v.below_distinct;
  },
  states_eq _ _ (view-deleted st a) refl refl,
)

save-Meets : (st : StateTree) → IsTree st → Meets (some (snapshot st)) (promise save (states st))
unfolding snapshot states snap_actor find
save-Meets st v = (
  record { top_distinct = tt; below_distinct = (v.top_distinct, v.below_distinct) },
  states_eq _ _ (λ j. refl) refl refl,
)

module _ (root : Map ℕ Actor) (top : Map ℕ Op) where
  restore-Meets :
      (below : List (Map ℕ Op))
      → let st : StateTree = record { root = root; top = top; below = below } in
        IsTree st → Meets (some (revert st)) (promise restore (states st))
  unfolding revert states snap_actor find
  restore-Meets [] v =
      (record { top_distinct = tt; below_distinct = tt }, states_eq _ _ (λ j. refl) refl refl)
  restore-Meets (l ∷ ls) v = (
    record { top_distinct = tt; below_distinct = v.below_distinct },
    states_eq _ _ (λ j. refl) refl refl,
  )

  forget-Meets :
      (below : List (Map ℕ Op))
      → let st : StateTree = record { root = root; top = top; below = below } in
        IsTree st → Meets (clear_snapshot st) (promise forget (states st))
  unfolding clear_snapshot states snap_actor
  forget-Meets [] v = tt
  forget-Meets (l ∷ ls) v = (
    record {
      top_distinct = merge-Distinct top l v.below_distinct.0;
      below_distinct = v.below_distinct.1;
    },
    states_eq _ _ (λ j. merged j ls) refl refl,
  )
    where
      merged :
          (j : ℕ) (ls : List (Map ℕ Op))
          → shown (snap_actor j (merge top l) ls) (find j root)
            ≡ shown (snap_actor j top (l ∷ ls)) (find j root)
      merged j [] = ground (arith, merge-find top l j v.top_distinct)
      merged j (k ∷ ks) = ground (arith, merge-find top l j v.top_distinct)

deleted-Meets :
    (a : ℕ) (st : StateTree)
    → IsTree st
    → Meets (delete_actor a st) (promise (remove a) (states st))
unfolding delete_actor states
deleted-Meets a st v =
    let (t, q) = get_meets a st v in
    subst (λ s. Meets (delete_actor a st) (without a s (view st a))) q
      (remove-Meets a (get_actor a st).0 (get_actor a st).1 (view st a) (get_actor_lem st a a).0
        (get_actor_lem st a a).1 t)

-- Every operation of a state tree does, on the layers, what it promises of the actors shown now,
-- at each snapshot taken, and in the root: a read changes nothing, a write and a removal change
-- one actor, a revert goes back to the last snapshot, or to the root if there is none, a clear
-- forgets the last snapshot; and a removal fails exactly if no actor is there, a clear exactly if
-- no snapshot is. The layers are maps with no key twice.
pub run_command_refines :
    (c : Command) (st : StateTree) → IsTree st → Meets (run_command c st) (promise c (states st))
unfolding run_command
run_command_refines (get a) st v = get_meets a st v
run_command_refines (write a act) st v = write-Meets a act st v
run_command_refines (remove a) st v = deleted-Meets a st v
run_command_refines save st v = save-Meets st v
run_command_refines restore st v = restore-Meets st.root st.top st.below v
run_command_refines forget st v = forget-Meets st.root st.top st.below v
