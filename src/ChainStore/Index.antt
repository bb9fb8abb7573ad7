-- ===== src/ChainStore/Index.antt =====
-- ChainIndex of chain/store/index.go: the tipset at a height, by walking back from a tipset or by
-- skipping with a cache. Loops run on fuel; `unfinished` says that it did not suffice.
pub mod Walks
pub mod Gap
use filecoin.Base.{
  ℕ, zero, suc, ◌+◌, ◌*◌, ◌/◌, List, [], ◌∷◌, Bool, true, false, ◌||◌, ◌==◌, ltb, if◌then◌else◌,
  Option, none, some,
}
use filecoin.Base.Lists.{key_eq}
use filecoin.Base.Map.{Map, find}
use filecoin.Base.Int.{ℤ, pos, negsuc, ◌-ℤ◌, ltb_ℤ, leb_ℤ}
use filecoin.ChainTypes.TipSet.{TipSet, Key, key, parents}

pub data Walk (A : Type 0) : Type 0 where
  found : A → Walk A
  failed unfinished : Walk A

infixl 5 ◌>>=◌
abbrev pub ◌>>=◌ : {A B : Type 0} → Walk A → (A → Walk B) → Walk B
found a >>= f = f a
failed >>= f = failed
unfinished >>= f = unfinished

pub record LbEntry : Type 0 where
  pub ts : TipSet
  pub parent_height : ℕ
  pub target_height : ℕ
  pub target : Key

-- `load` is loadTipSet, and `cache_add` the Add of the ARC cache, which may drop entries.
pub record ChainIndex : Type 0 where
  pub load : Key → Option TipSet
  pub cache_add : Map Key LbEntry → Key → LbEntry → Map Key LbEntry

abbrev pub skip_length : ℕ
skip_length = 20

abbrev same_height : ℤ → ℕ → Bool
same_height (pos n) h = n == h
same_height (negsuc n) h = false

unfoldable pub walk_loop : (Key → Option TipSet) → ℤ → ℕ → TipSet → Walk TipSet
unfolding parents
walk_loop load to zero ts = unfinished
walk_loop load to (suc fuel) ts = elim (load (parents ts)) [
  | none ↦ failed
  | some pts ↦
      let rest = walk_loop load to fuel pts in
      if ltb_ℤ (pos pts.height) to
      then found ts
      else if same_height to pts.height
      then found pts
      else rest
]

unfoldable pub walk_back : (Key → Option TipSet) → ℕ → TipSet → ℤ → Walk TipSet
unfolding walk_loop
walk_back load fuel from to =
    if ltb_ℤ (pos from.height) to
    then failed
    else if same_height to from.height
    then found from
    else walk_loop load to fuel from

unfoldable pub round_height : ℕ → ℕ
round_height h = h / skip_length * skip_length

unfoldable pub round_down : (Key → Option TipSet) → ℕ → TipSet → Walk TipSet
unfolding walk_back round_height
round_down load fuel ts = walk_back load fuel ts (pos (round_height ts.height))

-- fillCache by the parent: the target of the skip, and the entry
unfoldable pub skip_target : (Key → Option TipSet) → ℕ → TipSet → ℤ → Walk TipSet
unfolding walk_back
skip_target load fuel parent rheight =
    if ltb_ℤ (pos parent.height) rheight then found parent else walk_back load fuel parent rheight

unfoldable pub entry_for : TipSet → TipSet → TipSet → LbEntry
unfolding key
entry_for ts parent target = record {
  ts = ts;
  parent_height = parent.height;
  target_height = target.height;
  target = key target;
}

-- the entry, and the cache with it; the entry of genesis is not cached
unfoldable pub fill_for :
    ChainIndex → ℕ → Map Key LbEntry → Key → TipSet → Walk (LbEntry × Map Key LbEntry)
unfolding skip_target entry_for round_height ◌-ℤ◌
fill_for ci fuel cache tsk ts =
    if ts.height == 0
    then found (record { ts = ts; parent_height = 0; target_height = 0; target = [] }, cache)
    else elim (ci.load (parents ts)) [
      | none ↦ failed
      | some parent ↦ do
        target ← skip_target ci.load fuel parent (pos (round_height ts.height) -ℤ pos skip_length)
        found (entry_for ts parent target, ci.cache_add cache tsk (entry_for ts parent target))
    ]

unfoldable pub fill_cache :
    ChainIndex → ℕ → Map Key LbEntry → Key → Walk (LbEntry × Map Key LbEntry)
unfolding fill_for
fill_cache ci fuel cache tsk = elim (ci.load tsk) [
  | none ↦ failed
  | some ts ↦ fill_for ci fuel cache tsk ts
]

unfoldable pub look_up : ChainIndex → ℕ → Map Key LbEntry → Key → Walk (LbEntry × Map Key LbEntry)
unfolding fill_cache
look_up ci fuel cache cur = elim (find cur cache) [
  | some lbe ↦ found (lbe, cache)
  | none ↦ fill_cache ci fuel cache cur
]

-- the loop of GetTipsetByHeight; `walk` is the fuel of the walks in it
unfoldable pub skip_loop :
    ChainIndex → ℕ → ℕ → ℤ → Map Key LbEntry → Key → Walk (TipSet × Map Key LbEntry)
unfolding look_up
skip_loop ci walk zero to cache cur = unfinished
skip_loop ci walk (suc fuel) to cache cur = do
  (lbe, cache') ← look_up ci walk cache cur
  let rest = skip_loop ci walk fuel to cache' lbe.target in
      if same_height to lbe.ts.height || ltb_ℤ (pos lbe.parent_height) to
      then found (lbe.ts, cache')
      else if ltb_ℤ (pos lbe.target_height) to
      then (walk_back ci.load walk lbe.ts to >>= (λ ts. found (ts, cache')))
      else rest

unfoldable pub get_tipset_by_height :
    ChainIndex → ℕ → ℕ → Map Key LbEntry → TipSet → ℤ → Walk (TipSet × Map Key LbEntry)
unfolding skip_loop round_down
get_tipset_by_height ci walk fuel cache from to =
    if leb_ℤ (pos from.height -ℤ to) (pos skip_length)
    then (walk_back ci.load walk from to >>= (λ ts. found (ts, cache)))
    else (round_down ci.load walk from
        >>= (λ rounded. skip_loop ci walk fuel to cache (key rounded)))
