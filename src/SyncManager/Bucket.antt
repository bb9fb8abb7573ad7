-- ===== src/SyncManager/Bucket.antt =====
-- syncTargetBucket and syncBucketSet of chain/sync_manager.go. `none` is a run-time panic where a
-- function's result is an Option of a pair, and a nil tipset where it is an Option of a tipset.
-- The buckets of a set are distinct pointers, so the one to remove is told by its place.
pub mod Weight
pub mod Pop
pub mod Tips
use filecoin.Base.{
  ℕ, zero, suc, ◌+◌, List, [], ◌∷◌, ◌++◌, Bool, true, false, ltb, ◌==◌, if◌then◌else◌, ◌||◌, Option,
  none, some, ◌>>=◌,
}
use filecoin.Base.Lists.{list_eq, any, get_elem?}
use filecoin.Base.Int.{ℤ, ltb_ℤ}
use filecoin.ChainTypes.BlockHeader.{Hashes}
use filecoin.ChainTypes.TipSet.{TipSet, equals, key, parents, parent_weight}

pub record Bucket : Type 0 where
  pub tips : List TipSet
  pub count : ℕ

-- one round of the loop of sameChainAs
unfoldable pub related : Hashes → TipSet → TipSet → Bool
related h ts t = equals h ts t || list_eq (key ts) (parents t) || list_eq (parents ts) (key t)

unfoldable pub same_chain_as : Hashes → Bucket → TipSet → Bool
same_chain_as h b ts = any (related h ts) b.tips

unfoldable pub add : Hashes → Bucket → TipSet → Bucket
add h b ts =
    if any (λ t. equals h t ts) b.tips
    then record b { count = b.count + 1 }
    else record b { tips = b.tips ++ ts ∷ []; count = b.count + 1 }

unfoldable pub new_bucket : Hashes → TipSet → Bucket
unfolding add
new_bucket h ts = add h (record { tips = []; count = 0 }) ts

-- the loop of heaviestTipSet once `best` is not nil
unfoldable pub heaviest_of : TipSet → List TipSet → TipSet
heaviest_of best [] = best
heaviest_of best (t ∷ ts) =
    heaviest_of (if ltb_ℤ (parent_weight best) (parent_weight t) then t else best) ts

unfoldable pub heaviest_tip : List TipSet → Option TipSet
unfolding heaviest_of
heaviest_tip [] = none
heaviest_tip (t ∷ ts) = some (heaviest_of t ts)

unfoldable pub heaviest_tip_set : Bucket → Option TipSet
unfolding heaviest_tip
heaviest_tip_set b = heaviest_tip b.tips

unfoldable pub related_to_any : Hashes → List Bucket → TipSet → Bool
related_to_any h bs ts = any (λ b. same_chain_as h b ts) bs

unfoldable pub insert : Hashes → List Bucket → TipSet → List Bucket
insert h [] ts = new_bucket h ts ∷ []
insert h (b ∷ bs) ts =
    let rest = insert h bs ts in if same_chain_as h b ts then add h b ts ∷ bs else b ∷ rest

-- best.ParentWeight().LessThan(t.ParentWeight()); a nil tipset panics
unfoldable pub outweighed : Option TipSet → Option TipSet → Option Bool
outweighed (some b) (some t) = some (ltb_ℤ (parent_weight b) (parent_weight t))
outweighed (some b) none = none
outweighed none t = none

-- the loop of Pop once `bestBuck` is not nil: `i` is the place of the next bucket, `k` of the best
unfoldable pub best_index : ℕ → ℕ → Option TipSet → List Bucket → Option ℕ
unfolding outweighed
best_index i k best [] = some k
best_index i k best (b ∷ bs) = do
  lighter ← outweighed best (heaviest_tip_set b)
  best_index (suc i) (if lighter then i else k) (if lighter then heaviest_tip_set b else best) bs

unfoldable pub remove_bucket : ℕ → List Bucket → List Bucket
remove_bucket k [] = []
remove_bucket zero (b ∷ bs) = bs
remove_bucket (suc k) (b ∷ bs) = b ∷ remove_bucket k bs

-- on an empty set `make` in removeBucket panics, with the capacity -1
unfoldable pub pop : List Bucket → Option (Bucket × List Bucket)
unfolding best_index remove_bucket
pop [] = none
pop (b ∷ bs) = do
  k ← best_index 1 0 (heaviest_tip_set b) bs
  best ← get_elem? (b ∷ bs) k
  some (best, remove_bucket k (b ∷ bs))

-- the bucket found, if any, and the others
unfoldable pub pop_related : Hashes → List Bucket → TipSet → Option Bucket × List Bucket
pop_related h [] ts = (none, [])
pop_related h (b ∷ bs) ts =
    let (found, rest) = pop_related h bs ts in
    if same_chain_as h b ts then (some b, bs) else (found, b ∷ rest)

-- the loop of Heaviest
unfoldable pub heaviest_from : Option TipSet → List Bucket → Option (Option TipSet)
unfolding outweighed
heaviest_from best [] = some best
heaviest_from none (b ∷ bs) = heaviest_from (heaviest_tip_set b) bs
heaviest_from (some t) (b ∷ bs) = do
  lighter ← outweighed (some t) (heaviest_tip_set b)
  heaviest_from (if lighter then heaviest_tip_set b else some t) bs

unfoldable pub heaviest : List Bucket → Option (Option TipSet)
unfolding heaviest_from
heaviest bs = heaviest_from none bs
