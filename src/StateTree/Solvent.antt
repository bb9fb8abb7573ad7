-- ===== src/StateTree/Solvent.antt =====
-- That no actor of a state tree has a balance below 0, in the root and in every layer; what the
-- operations of chain/state/statetree.go leave of it.
use filecoin.Base.{subst, false, ℕ, ◌≡◌, refl, List, [], ◌∷◌, Option, none, some, nat_eq, arith}
use filecoin.Base.Lists.{All}
use filecoin.Base.Int.{pos, ltb_ℤ}
use filecoin.Base.Map.{Map, find, put, AllEntries, find-AllEntries, put-AllEntries}
use filecoin.ChainTypes.Actor.{Actor}
use filecoin.StateTree.{
  Op, stored, deleted, StateTree, actor, snap_actor, set_actor, get_actor, read_actor, snapshot,
  merge,
}

-- No actor has a balance below 0.
abbrev pub Covered : Actor → Type 0
Covered act = ltb_ℤ act.balance (pos 0) ≡ false

abbrev pub CoveredOp : Op → Type 0
CoveredOp (stored act) = Covered act
CoveredOp deleted = Unit

abbrev Layer : Map ℕ Op → Type 0
Layer = AllEntries (λ k op. CoveredOp op)

-- So in the root and in every layer.
pub record Solvent (st : StateTree) : Type 0 where
  pub top_covered : AllEntries (λ k op. CoveredOp op) st.top
  pub below_covered : All (AllEntries (λ k op. CoveredOp op)) st.below
  pub root_covered : AllEntries (λ k act. Covered act) st.root

snap_actor-Covered :
    (a : ℕ) (act : Actor) (top : Map ℕ Op) (below : List (Map ℕ Op))
    → Layer top
    → All Layer below
    → snap_actor a top below ≡ some (stored act)
    → Covered act
unfolding snap_actor
snap_actor-Covered a act top [] t b q =
    find-AllEntries (λ k op. CoveredOp op) a top (stored act) t q
snap_actor-Covered a act top (l ∷ ls) t b q = ground (
  arith,
  find-AllEntries (λ k op. CoveredOp op) a top (stored act) t,
  snap_actor-Covered a act l ls b.0 b.1,
)

read_actor-Covered :
    (a : ℕ) (st : StateTree) (o : Option Op) (r : Option Actor) (act : Actor)
    → Solvent st
    → snap_actor a st.top st.below ≡ o
    → find a st.root ≡ r
    → (read_actor a o r st).0 ≡ actor act
    → Covered act
unfolding read_actor
read_actor-Covered a st (some (stored b)) r act s e f q =
    let same : b ≡ act = cc q in
    subst Covered same (snap_actor-Covered a b st.top st.below s.top_covered s.below_covered e)
read_actor-Covered a st (some deleted) r act s e f q = absurd (cc)
read_actor-Covered a st none none act s e f q = absurd (cc)
read_actor-Covered a st none (some b) act s e f q =
    let same : b ≡ act = cc q in
    subst Covered same (find-AllEntries (λ k act. Covered act) a st.root b s.root_covered f)

-- An actor that is read has no balance below 0.
pub get_actor-Covered :
    (a : ℕ) (st : StateTree) (act : Actor)
    → Solvent st
    → (get_actor a st).0 ≡ actor act
    → Covered act
unfolding get_actor
get_actor-Covered a st act s q =
    read_actor-Covered a st (snap_actor a st.top st.below) (find a st.root) act s refl refl q

pub put_top-Solvent :
    (a : ℕ) (op : Op) (st : StateTree)
    → CoveredOp op
    → Solvent st
    → Solvent (record st { top = put a op st.top })
put_top-Solvent a op st c s = record {
  top_covered = put-AllEntries (λ k op. CoveredOp op) a op st.top c s.top_covered;
  below_covered = s.below_covered;
  root_covered = s.root_covered;
}

pub read_actor-Solvent :
    (a : ℕ) (st : StateTree) (o : Option Op) (r : Option Actor)
    → find a st.root ≡ r
    → Solvent st
    → Solvent (read_actor a o r st).1
unfolding read_actor set_actor
read_actor-Solvent a st (some (stored b)) r f s = s
read_actor-Solvent a st (some deleted) r f s = s
read_actor-Solvent a st none none f s = s
read_actor-Solvent a st none (some b) f s =
    put_top-Solvent a (stored b) st
      (find-AllEntries (λ k act. Covered act) a st.root b s.root_covered f) s

pub merge-Covered : (last next : Map ℕ Op) → Layer last → Layer next → Layer (merge last next)
unfolding merge
merge-Covered [] next l n = n
merge-Covered ((k, op) ∷ last) next l n =
    merge-Covered last (put k op next) l.1 (put-AllEntries (λ k op. CoveredOp op) k op next l.0 n)

pub snapshot-Solvent : (st : StateTree) → Solvent st → Solvent (snapshot st)
unfolding snapshot
snapshot-Solvent st s = record {
  top_covered = tt;
  below_covered = (s.top_covered, s.below_covered);
  root_covered = s.root_covered;
}
