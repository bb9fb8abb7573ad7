-- ===== src/StateTree/View.antt =====
-- What a tree shows: the actor at each ID. Reading does not change it, writing changes one ID.
use filecoin.Base.Lists.{All}
use filecoin.Base.{
  ◌++◌, ◌⊎◌, ap, Option-cases, >>=-eq-some, ℕ, ◌≡◌, refl, subst, ◌∙◌, List, [], ◌∷◌, Option, none,
  some, nat_eq, if◌then◌else◌, ◌==◌, arith, ==_iff, Bool-cases, inl, inr,
}
use filecoin.Base.Map.{Map, find, put, find-put, find-erase, Distinct, put-Distinct}
use filecoin.ChainTypes.Actor.{Actor}
use filecoin.StateTree.{
  Op, stored, deleted, StateTree, Found, actor, not_found, snap_actor, set_actor, read_actor,
  get_actor, merge, Hamt, write_op, write_all, flush,
}

-- By the entry of the layers and of the root.
abbrev pub shown : Option Op → Option Actor → Option Actor
shown (some (stored act)) r = some act
shown (some deleted) r = none
shown none r = r

abbrev pub view : StateTree → ℕ → Option Actor
view st a = shown (snap_actor a st.top st.below) (find a st.root)

-- The newer of two entries.
abbrev pub over : Option Op → Option Op → Option Op
over (some op) o = some op
over none o = o

abbrev pub result : Option Actor → Found
result none = not_found
result (some act) = actor act

snap_actor-put :
    (a j : ℕ) (op : Op) (top : Map ℕ Op) (below : List (Map ℕ Op))
    → snap_actor j (put a op top) below ≡ (if a == j then some op else snap_actor j top below)
unfolding snap_actor
snap_actor-put a j op top [] = find-put a j op top
snap_actor-put a j op top (l ∷ ls) = ground (arith, find-put a j op top)

-- SetActor changes what the tree shows at its ID, and nowhere else.
pub view-set_actor :
    (st : StateTree) (a j : ℕ) (act : Actor)
    → view (set_actor a act st) j ≡ (if a == j then some act else view st j)
unfolding set_actor
view-set_actor st a j act = ground (arith, snap_actor-put a j (stored act) st.top st.below)

read_actor_lem :
    (a j : ℕ) (st : StateTree) (o : Option Op) (r : Option Actor)
    → snap_actor a st.top st.below ≡ o
    → find a st.root ≡ r
    → ((read_actor a o r st).0 ≡ result (shown o r)) × (view (read_actor a o r st).1 j ≡ view st j)
unfolding read_actor
read_actor_lem a j st (some (stored act)) r e f = (refl, refl)
read_actor_lem a j st (some deleted) r e f = (refl, refl)
read_actor_lem a j st none none e f = (refl, refl)
read_actor_lem a j st none (some act) e f = (refl, view-set_actor st a j act ∙ read_back)
  where
    read_back : (if a == j then some act else view st j) ≡ view st j
    read_back = elim (Bool-cases (a == j)) [
      | inl q ↦ rw (q, subst (λ k. view st k ≡ some act) ((==_iff a j).0 q) (rw e f))
      | inr q ↦ rw q
    ]

-- The newest layer that has an entry for the address, which has `op`.
pub record Newest (a : ℕ) (layers : List (Map ℕ Op)) (op : Op) : Type 0 where
  pub newer : List (Map ℕ Op)
  pub layer : Map ℕ Op
  pub older : List (Map ℕ Op)
  pub place : layers ≡ newer ++ layer ∷ older
  pub none_newer : All (λ l. find a l ≡ none) newer
  pub entry : find a layer ≡ some op

-- What stands at the address: an actor that the newest entry has stored; nothing, if that has
-- deleted it or nothing is known of it; else the actor of the root.
abbrev pub Stands : StateTree → ℕ → Option Actor → Type 0
Stands st a (some act) =
    Newest a (st.top ∷ st.below) (stored act)
    ⊎ (All (λ l. find a l ≡ none) (st.top ∷ st.below) × (find a st.root ≡ some act))
Stands st a none =
    Newest a (st.top ∷ st.below) deleted
    ⊎ (All (λ l. find a l ≡ none) (st.top ∷ st.below) × (find a st.root ≡ none))

pub snap_actor-Newest :
    (a : ℕ) (top : Map ℕ Op) (below : List (Map ℕ Op)) (op : Op)
    → snap_actor a top below ≡ some op
    → Newest a (top ∷ below) op
unfolding snap_actor
snap_actor-Newest a top [] op e = record {
  newer = [];
  layer = top;
  older = [];
  place = refl;
  none_newer = tt;
  entry = e;
}
snap_actor-Newest a top (l ∷ ls) op e = elim (Option-cases (find a top)) [
  | inr (o, f) ↦ record {
    newer = [];
    layer = top;
    older = l ∷ ls;
    place = refl;
    none_newer = tt;
    entry = ground (arith, e, f);
  }
  | inl f ↦
      let n = snap_actor-Newest a l ls op (ground (arith, e, f)) in
      record {
        newer = top ∷ n.newer;
        layer = n.layer;
        older = n.older;
        place = ap (λ r. top ∷ r) n.place;
        none_newer = (f, n.none_newer);
        entry = n.entry;
      }
]

snap_actor-none :
    (a : ℕ) (top : Map ℕ Op) (below : List (Map ℕ Op))
    → snap_actor a top below ≡ none
    → All (λ l. find a l ≡ none) (top ∷ below)
unfolding snap_actor
snap_actor-none a top [] e = (e, tt)
snap_actor-none a top (l ∷ ls) e = elim (Option-cases (find a top)) [
  | inr (o, f) ↦ absurd (ground (arith, e, f))
  | inl f ↦ (f, snap_actor-none a l ls (ground (arith, e, f)))
]

pub view-Stands : (st : StateTree) (a : ℕ) → Stands st a (view st a)
view-Stands st a = by_entry (snap_actor a st.top st.below) (find a st.root) refl refl
  where
    by_entry :
        (o : Option Op) (r : Option Actor)
        → snap_actor a st.top st.below ≡ o
        → find a st.root ≡ r
        → Stands st a (shown o r)
    by_entry (some (stored act)) r e f = inl (snap_actor-Newest a st.top st.below (stored act) e)
    by_entry (some deleted) r e f = inl (snap_actor-Newest a st.top st.below deleted e)
    by_entry none none e f = inr (snap_actor-none a st.top st.below e, f)
    by_entry none (some act) e f = inr (snap_actor-none a st.top st.below e, f)

pub get_actor_lem :
    (st : StateTree) (a j : ℕ)
    → ((get_actor a st).0 ≡ result (view st a)) × (view (get_actor a st).1 j ≡ view st j)
unfolding get_actor
get_actor_lem st a j =
    read_actor_lem a j st (snap_actor a st.top st.below) (find a st.root) refl refl

-- GetActor returns, for an address, what the newest layer with an entry for it has: the actor
-- stored there, or none if it is deleted there; and if no layer has an entry, the actor of the
-- root, or none. The copy that it keeps changes what is shown nowhere.
pub get_actor-view :
    (st : StateTree) (a j : ℕ)
    → (o : Option Actor) × Stands st a o
      × ((get_actor a st).0 ≡ result o)
      × (view (get_actor a st).1 j ≡ view st j)
get_actor-view st a j =
    (view st a, view-Stands st a, (get_actor_lem st a j).0, (get_actor_lem st a j).1)

read_actor-below :
    (a : ℕ) (st : StateTree) (o : Option Op) (r : Option Actor)
    → ((read_actor a o r st).1.below ≡ st.below) × ((read_actor a o r st).1.root ≡ st.root)
unfolding read_actor
read_actor-below a st (some (stored act)) r = (refl, refl)
read_actor-below a st (some deleted) r = (refl, refl)
read_actor-below a st none none = (refl, refl)
read_actor-below a st none (some act) = (refl, refl)

pub get_actor-below :
    (a : ℕ) (st : StateTree)
    → ((get_actor a st).1.below ≡ st.below) × ((get_actor a st).1.root ≡ st.root)
unfolding get_actor
get_actor-below a st = read_actor-below a st (snap_actor a st.top st.below) (find a st.root)

pub view-deleted :
    (st : StateTree) (a j : ℕ)
    → view (record st { top = put a deleted st.top }) j ≡ (if a == j then none else view st j)
view-deleted st a j = ground (arith, snap_actor-put a j deleted st.top st.below)

pub merge-find :
    (last next : Map ℕ Op) (j : ℕ)
    → Distinct last
    → find j (merge last next) ≡ over (find j last) (find j next)
unfolding merge find
merge-find [] next j d = refl
merge-find ((k, v) ∷ last) next j d =
    ground (arith, merge-find last (put k v next) j, find-put k j v next)

pub merge-Distinct : (last next : Map ℕ Op) → Distinct next → Distinct (merge last next)
unfolding merge
merge-Distinct [] next d = d
merge-Distinct ((k, v) ∷ last) next d = merge-Distinct last (put k v next) (put-Distinct k v next d)

write_op-find :
    (h : Hamt) (k : ℕ) (op : Op) (root root' : Map ℕ Actor) (j : ℕ)
    → write_op h k op root ≡ some root'
    → find j root' ≡ (if k == j then shown (some op) none else find j root)
unfolding write_op
write_op-find h k (stored act) root root' j e = ground (arith, e, find-put k j act root)
write_op-find h k deleted root root' j e = ground (arith, e, find-erase k j root)

write_all-find :
    (h : Hamt) (ops : Map ℕ Op) (root root' : Map ℕ Actor) (j : ℕ)
    → Distinct ops
    → write_all h ops root ≡ some root'
    → find j root' ≡ shown (find j ops) (find j root)
unfolding write_all find
write_all-find h [] root root' j d e = ground (arith, e)
write_all-find h ((k, op) ∷ ops) root root' j d e =
    let (next, p, q) = >>=-eq-some (write_op h k op root) (write_all h ops) e in
    by_op next op (write_op-find h k op root next j p) (write_all-find h ops next root' j d.1 q)
  where
    by_op :
        (next : Map ℕ Actor) (op : Op)
        → find j next ≡ (if k == j then shown (some op) none else find j root)
        → find j root' ≡ shown (find j ops) (find j next)
        → find j root' ≡ shown (if k == j then some op else find j ops) (find j root)
    by_op next (stored act) f g = ground (arith, d.0, f, g, ==_iff k j)
    by_op next deleted f g = ground (arith, d.0, f, g, ==_iff k j)

-- The map that Flush writes, where it and every Put and Delete of the HAMT succeed, has at every
-- address what the tree showed there; the top layer is a map with no key twice.
pub flush-view :
    (h : Hamt) (st : StateTree) (root : Map ℕ Actor) (j : ℕ)
    → Distinct st.top
    → flush h st ≡ some root
    → find j root ≡ view st j
unfolding flush snap_actor
flush-view h st root j d e = flush_by st.below refl
  where
    flush_by :
        (ls : List (Map ℕ Op))
        → st.below ≡ ls
        → find j root ≡ shown (snap_actor j st.top ls) (find j st.root)
    flush_by [] f = write_all-find h st.top st.root root j d (ground (arith, e, f))
    flush_by (l ∷ ls) f = absurd (ground (arith, e, f))
