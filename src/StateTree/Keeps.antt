-- ===== src/StateTree/Keeps.antt =====
-- The operations that leave the layers below the newest one, and the root, as they are: those of
-- chain/state/statetree.go but the ones on snapshots.
use filecoin.Base.{ℕ, ◌≡◌, refl, sym, ap, ◌∙◌, List, [], ◌∷◌, Option, none, some, nat_eq, arith}
use filecoin.Base.Map.{Map, find, put, Distinct, put-Distinct}
use filecoin.ChainTypes.Actor.{Actor}
use filecoin.StateTree.{
  Op, stored, deleted, StateTree, Found, actor, not_found, snap_actor, set_actor, get_actor,
  mark_deleted, delete_actor, snapshot, merge, clear_snapshot, revert,
}
use filecoin.StateTree.View.{shown, view, get_actor-below, merge-Distinct, merge-find}
use filecoin.StateTree.Snapshots.{IsTree, read_actor-IsTree}
use filecoin.StateTree.Solvent.{
  Covered, CoveredOp, Solvent, put_top-Solvent, read_actor-Solvent, merge-Covered, snapshot-Solvent,
}

pub record Keeps (st st' : StateTree) : Type 0 where
  pub same_below : st'.below ≡ st.below
  pub same_root : st'.root ≡ st.root
  pub is_tree : IsTree st → IsTree st'
  pub solvent : Solvent st → Solvent st'

pub Keeps-refl : (st : StateTree) → Keeps st st
Keeps-refl st = record { same_below = refl; same_root = refl; is_tree = λ v. v; solvent = λ s. s }

pub Keeps-trans : (a b c : StateTree) → Keeps a b → Keeps b c → Keeps a c
Keeps-trans a b c p q = record {
  same_below = q.same_below ∙ p.same_below;
  same_root = q.same_root ∙ p.same_root;
  is_tree = λ v. q.is_tree (p.is_tree v);
  solvent = λ s. q.solvent (p.solvent s);
}

pub get_actor-Keeps : (a : ℕ) (st : StateTree) → Keeps st (get_actor a st).1
unfolding get_actor
get_actor-Keeps a st = record {
  same_below = (get_actor-below a st).0;
  same_root = (get_actor-below a st).1;
  is_tree = read_actor-IsTree a st (snap_actor a st.top st.below) (find a st.root);
  solvent = read_actor-Solvent a st (snap_actor a st.top st.below) (find a st.root) refl;
}

pub put_top-Keeps :
    (a : ℕ) (op : Op) (st : StateTree)
    → (Solvent st → CoveredOp op)
    → Keeps st (record st { top = put a op st.top })
put_top-Keeps a op st c = record {
  same_below = refl;
  same_root = refl;
  is_tree = λ v. record {
    top_distinct = put-Distinct a op st.top v.top_distinct;
    below_distinct = v.below_distinct;
  };
  solvent = λ s. put_top-Solvent a op st (c s) s;
}

pub set_actor-Keeps :
    (a : ℕ) (act : Actor) (st : StateTree)
    → (Solvent st → Covered act)
    → Keeps st (set_actor a act st)
unfolding set_actor
set_actor-Keeps a act st c = put_top-Keeps a (stored act) st c

-- A write of an actor that has no balance below 0 if those of the tree before have none.
pub set_after-Keeps :
    (a : ℕ) (act : Actor) (st st' : StateTree)
    → Keeps st st'
    → (Solvent st → Covered act)
    → Keeps st (set_actor a act st')
unfolding set_actor
set_after-Keeps a act st st' k c = record {
  same_below = k.same_below;
  same_root = k.same_root;
  is_tree = λ v.
      let v' = k.is_tree v in
      record {
        top_distinct = put-Distinct a (stored act) st'.top v'.top_distinct;
        below_distinct = v'.below_distinct;
      };
  solvent = λ s. put_top-Solvent a (stored act) st' (c s) (k.solvent s);
}

-- What holds of the tree that an operation returns, if it returns one.
abbrev pub KeepsIf : StateTree → Option StateTree → Type 0
KeepsIf st none = Unit
KeepsIf st (some st') = Keeps st st'

mark_deleted-Keeps :
    (a : ℕ) (st : StateTree) (r : Found) (st' : StateTree)
    → Keeps st st'
    → KeepsIf st (mark_deleted a (r, st'))
unfolding mark_deleted
mark_deleted-Keeps a st not_found st' k = tt
mark_deleted-Keeps a st (actor act) st' k =
    Keeps-trans st st' _ k (put_top-Keeps a deleted st' (λ s. tt))

pub delete_actor-Keeps : (a : ℕ) (st : StateTree) → KeepsIf st (delete_actor a st)
unfolding delete_actor
delete_actor-Keeps a st =
    mark_deleted-Keeps a st (get_actor a st).0 (get_actor a st).1 (get_actor-Keeps a st)

-- Between a snapshot and its end.
pub revert-Keeps : (st : StateTree) → Keeps st (revert st)
unfolding revert
revert-Keeps st = record {
  same_below = refl;
  same_root = refl;
  is_tree = λ v. record { top_distinct = tt; below_distinct = v.below_distinct };
  solvent = λ s. record {
    top_covered = tt;
    below_covered = s.below_covered;
    root_covered = s.root_covered;
  };
}

-- A snapshot's tree, with whatever has been done in it, is cleared to one over the old layers.
pub clear_snapshot-Keeps :
    (st st' : StateTree)
    → Keeps (snapshot st) st'
    → (st'' : StateTree) × (clear_snapshot st' ≡ some st'') × Keeps st st''
unfolding clear_snapshot snapshot
clear_snapshot-Keeps st st' k = (
  record { root = st'.root; top = merge st'.top st.top; below = st.below },
  rw (k.same_below) refl,
  record {
    same_below = refl;
    same_root = k.same_root;
    is_tree = λ v. record {
      top_distinct = merge-Distinct st'.top st.top v.top_distinct;
      below_distinct = v.below_distinct;
    };
    solvent = λ s.
        let s' = k.solvent (snapshot-Solvent st s) in
        record {
          top_covered = merge-Covered st'.top st.top s'.top_covered s.top_covered;
          below_covered = s.below_covered;
          root_covered = s'.root_covered;
        };
  },
)

-- A snapshot that is reverted and cleared shows what was there before it.
pub reverted-view :
    (st st' : StateTree) (j : ℕ)
    → Keeps (snapshot st) st'
    → (st'' : StateTree) × (clear_snapshot (revert st') ≡ some st'')
      × Keeps st st''
      × (view st'' j ≡ view st j)
unfolding clear_snapshot snapshot revert merge
reverted-view st st' j k = (
  record { root = st'.root; top = st.top; below = st.below },
  rw (k.same_below) refl,
  record {
    same_below = refl;
    same_root = k.same_root;
    is_tree = λ v. record { top_distinct = v.top_distinct; below_distinct = v.below_distinct };
    solvent = λ s. record {
      top_covered = s.top_covered;
      below_covered = s.below_covered;
      root_covered = (k.solvent (snapshot-Solvent st s)).root_covered;
    };
  },
  rw (k.same_root) refl,
)

-- What is shown after a revert, the snapshot still open.
pub revert-view :
    (st st' : StateTree) (j : ℕ) → Keeps (snapshot st) st' → view (revert st') j ≡ view st j
unfolding snapshot revert snap_actor find
revert-view st st' j k = rw (k.same_below, k.same_root) refl

snapshot-IsTree : (st : StateTree) → IsTree st → IsTree (snapshot st)
unfolding snapshot
snapshot-IsTree st v = record {
  top_distinct = tt;
  below_distinct = (v.top_distinct, v.below_distinct);
}

merged-shown :
    (a b : Map ℕ Op) (ls : List (Map ℕ Op)) (root : Map ℕ Actor) (j : ℕ)
    → Distinct a
    → shown (snap_actor j (merge a b) ls) (find j root)
      ≡ shown (snap_actor j a (b ∷ ls)) (find j root)
unfolding snap_actor
merged-shown a b [] root j d = ground (arith, merge-find a b j d)
merged-shown a b (l ∷ ls) root j d = ground (arith, merge-find a b j d)

-- A snapshot that is cleared shows what it showed.
pub cleared-view :
    (st st' : StateTree)
    → Keeps (snapshot st) st'
    → IsTree st
    → (st'' : StateTree) × (clear_snapshot st' ≡ some st'') × ((j : ℕ) → view st'' j ≡ view st' j)
unfolding clear_snapshot snapshot
cleared-view st st' k v = (
  record { root = st'.root; top = merge st'.top st.top; below = st.below },
  rw (k.same_below) refl,
  λ j.
      merged-shown st'.top st.top st.below st'.root j
        (k.is_tree (snapshot-IsTree st v)).top_distinct
      ∙ ap (λ b. shown (snap_actor j st'.top b) (find j st'.root)) (sym k.same_below),
)
