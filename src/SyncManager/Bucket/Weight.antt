-- ===== src/SyncManager/Bucket/Weight.antt =====
-- heaviestTipSet returns a heaviest tip of its bucket.
use filecoin.Base.{◌≡◌, subst, List, [], ◌∷◌, Bool, true, false, if◌then◌else◌, some, arith}
use filecoin.Base.Lists.{All, In, here, there}
use filecoin.Base.Int.{◌≤ℤ◌, ltb_ℤ}
use filecoin.ChainTypes.TipSet.{TipSet, parent_weight}
use filecoin.SyncManager.Bucket.{Bucket, heaviest_of, heaviest_tip, heaviest_tip_set}

-- `t` is at least as heavy as `s`.
abbrev pub Outweighs : TipSet → TipSet → Type 0
Outweighs t s = parent_weight s ≤ℤ parent_weight t

abbrev pub HasTip : Bucket → Type 0
HasTip b = (t : TipSet) × (heaviest_tip_set b ≡ some t)

heaviest_of-ge : (b : TipSet) (ts : List TipSet) → Outweighs (heaviest_of b ts) b
unfolding heaviest_of
heaviest_of-ge b [] = omega arith
heaviest_of-ge b (t ∷ ts) = ground (arith, heaviest_of-ge b ts, heaviest_of-ge t ts)

heaviest_of-All : (b : TipSet) (ts : List TipSet) → All (Outweighs (heaviest_of b ts)) ts
unfolding heaviest_of
heaviest_of-All b [] = tt
heaviest_of-All b (t ∷ ts) = (
  ground (arith, heaviest_of-ge b ts, heaviest_of-ge t ts),
  heaviest_of-All (if ltb_ℤ (parent_weight b) (parent_weight t) then t else b) ts,
)

heaviest_of-In : (b : TipSet) (ts : List TipSet) → In (heaviest_of b ts) (b ∷ ts)
unfolding heaviest_of
heaviest_of-In b [] = here
heaviest_of-In b (t ∷ ts) =
    place (ltb_ℤ (parent_weight b) (parent_weight t))
      (heaviest_of-In (if ltb_ℤ (parent_weight b) (parent_weight t) then t else b) ts)
  where
    skip : {x : TipSet} → In x (b ∷ ts) → In x (b ∷ t ∷ ts)
    skip here = here
    skip (there i) = there (there i)

    place : (c : Bool) {x : TipSet} → In x ((if c then t else b) ∷ ts) → In x (b ∷ t ∷ ts)
    place true i = there i
    place false i = skip i

heaviest_tip_lem :
    (tips : List TipSet) (t : TipSet)
    → heaviest_tip tips ≡ some t
    → In t tips × All (Outweighs t) tips
unfolding heaviest_tip
heaviest_tip_lem [] t e = absurd (cc)
heaviest_tip_lem (b ∷ ts) t e =
    let q : heaviest_of b ts ≡ t = cc in
    subst (λ u. In u (b ∷ ts) × All (Outweighs u) (b ∷ ts)) q
      (heaviest_of-In b ts, (heaviest_of-ge b ts, heaviest_of-All b ts))

-- The tipset that a bucket offers is one of its tips, and none of its tips is heavier.
pub heaviest_tip_set_max :
    (b : Bucket) (t : TipSet) → heaviest_tip_set b ≡ some t → In t b.tips × All (Outweighs t) b.tips
unfolding heaviest_tip_set
heaviest_tip_set_max b t e = heaviest_tip_lem b.tips t e
