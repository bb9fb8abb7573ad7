-- ===== src/Tests/Index.antt =====
-- A chain of three tipsets with a gap of more than one skip, and its index.
use filecoin.Base.{◌≡◌, refl, [], ◌∷◌, Option, none, some, if◌then◌else◌, arith}
use filecoin.Base.Lists.{list_eq, key_eq}
use filecoin.Base.Map.{put, find}
use filecoin.Base.Int.{pos}
use filecoin.ChainTypes.TipSet.{TipSet, Key, parents}
use filecoin.ChainStore.Index.{
  found, failed, ChainIndex, walk_back, fill_cache, get_tipset_by_height,
}
use filecoin.ChainStore.Index.Walks.{Line, Lowest, walk_back-Lowest}
use filecoin.ChainStore.Index.Gap.{fill_cache_fails}
use filecoin.Tests.{tip_set}

abbrev genesis : TipSet
genesis = tip_set 1 0 0 0

abbrev early : TipSet
early = tip_set 2 1 10 5

abbrev late : TipSet
late = tip_set 3 2 20 45

abbrev load : Key → Option TipSet
load k =
    if list_eq k (1 ∷ [])
    then some genesis
    else if list_eq k (2 ∷ [])
    then some early
    else if list_eq k (3 ∷ [])
    then some late
    else none

abbrev index : ChainIndex
index = record { load = load; cache_add = λ cache k e. put k e cache }

line : Line load late (early ∷ genesis ∷ [])
unfolding parents
line = (refl, omega arith, (refl, omega arith, (refl, refl)))

early-Line : Line load early (genesis ∷ [])
unfolding parents
early-Line = (refl, omega arith, (refl, refl))

walk_back-Lowest_example :
    (t : TipSet) × (walk_back load 5 late (pos 3) ≡ found t)
    × Lowest 3 (late ∷ early ∷ genesis ∷ []) t
walk_back-Lowest_example =
    walk_back-Lowest load 3 5 late (early ∷ genesis ∷ []) (omega arith) (omega arith) line

fill_cache_fails_example : fill_cache index 5 [] (2 ∷ []) ≡ failed
fill_cache_fails_example =
    fill_cache_fails index 5 [] (2 ∷ []) early (genesis ∷ []) refl (omega arith) (omega arith)
      early-Line (omega arith)

-- The walk finds the tipset at height 5 for the height 3; the index fails.
walks : walk_back load 5 late (pos 3) ≡ found early
unfolding walk_back
walks = refl

index_fails : get_tipset_by_height index 5 5 [] late (pos 3) ≡ failed
unfolding get_tipset_by_height find put
index_fails = refl
