-- ===== src/SyncManager/Bucket/Tips.antt =====
-- Every operation on buckets keeps a tip in each.
use filecoin.Base.{
  ◌≡◌, refl, subst, List, [], ◌∷◌, ◌++◌, Bool, true, some, arith, Bool-cases, inl, inr,
}
use filecoin.Base.Lists.{All, any}
use filecoin.ChainTypes.BlockHeader.{Hashes}
use filecoin.ChainTypes.TipSet.{TipSet, equals}
use filecoin.SyncManager.Bucket.{
  Bucket, add, new_bucket, insert, same_chain_as, pop_related, heaviest_tip, heaviest_of,
  heaviest_tip_set,
}
use filecoin.SyncManager.Bucket.Weight.{HasTip}

snoc_tip : (ts : List TipSet) (t : TipSet) → (u : TipSet) × (heaviest_tip (ts ++ t ∷ []) ≡ some u)
unfolding heaviest_tip
snoc_tip [] t = (t, refl)
snoc_tip (s ∷ ts) t = (heaviest_of s (ts ++ t ∷ []), refl)

any_tip :
    (p : TipSet → Bool) (ts : List TipSet)
    → any p ts ≡ true
    → (u : TipSet) × (heaviest_tip ts ≡ some u)
unfolding heaviest_tip
any_tip p [] e = absurd (cc)
any_tip p (s ∷ ts) e = (heaviest_of s ts, refl)

pub add-HasTip : (h : Hashes) (b : Bucket) (ts : TipSet) → HasTip (add h b ts)
unfolding add heaviest_tip_set
add-HasTip h b ts = elim (Bool-cases (any (λ t. equals h t ts) b.tips)) [
  | inl e ↦ rw e (any_tip (λ t. equals h t ts) b.tips e)
  | inr e ↦ rw e (snoc_tip b.tips ts)
]

pub insert-HasTip :
    (h : Hashes) (bs : List Bucket) (ts : TipSet) → All HasTip bs → All HasTip (insert h bs ts)
unfolding insert new_bucket
insert-HasTip h [] ts a = (add-HasTip h (record { tips = []; count = 0 }) ts, tt)
insert-HasTip h (b ∷ bs) ts a = elim (Bool-cases (same_chain_as h b ts)) [
  | inl e ↦ rw e (add-HasTip h b ts, a.1)
  | inr e ↦ rw e (a.0, insert-HasTip h bs ts a.1)
]

pub pop_related-HasTip :
    (h : Hashes) (bs : List Bucket) (ts : TipSet)
    → All HasTip bs
    → ((b : Bucket) → (pop_related h bs ts).0 ≡ some b → HasTip b)
      × All HasTip (pop_related h bs ts).1
unfolding pop_related
pop_related-HasTip h [] ts a = (λ b e. absurd (cc), tt)
pop_related-HasTip h (b ∷ bs) ts a =
    let ih = pop_related-HasTip h bs ts a.1 in
    elim (Bool-cases (same_chain_as h b ts)) [
      | inl e ↦ rw e (λ c f. subst HasTip (ground arith) a.0, a.1)
      | inr e ↦ rw e (ih.0, (a.0, ih.1))
    ]
