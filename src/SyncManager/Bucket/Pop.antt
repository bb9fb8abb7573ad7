-- ===== src/SyncManager/Bucket/Pop.antt =====
-- Pop on a set of buckets that all have a tip: it does not panic, takes a bucket whose heaviest
-- tip no other bucket exceeds, and leaves exactly the others.
use mathlib.Core.List.{Perm}
use mathlib.Core.List.Perm
use filecoin.Base.{
  ℕ, zero, suc, ◌+◌, ◌≡◌, refl, subst, ◌⊎◌, List, [], ◌∷◌, some, arith, Bool-cases, inl, inr,
  >>=-eq-some,
}
use filecoin.Base.Lists.{All, get_elem?}
use filecoin.Base.Int.{ltb_ℤ}
use filecoin.ChainTypes.TipSet.{TipSet, parent_weight}
use filecoin.SyncManager.Bucket.{
  Bucket, heaviest_tip_set, outweighed, best_index, remove_bucket, pop,
}
use filecoin.SyncManager.Bucket.Weight.{Outweighs, HasTip}

-- No tip that the bucket offers is heavier than `t`.
abbrev pub Lighter : TipSet → Bucket → Type 0
Lighter t b = (s : TipSet) → heaviest_tip_set b ≡ some s → Outweighs t s

-- What the loop's result `r` is: the place `k` it began with, or that of a heavier bucket.
abbrev Best : ℕ → ℕ → TipSet → List Bucket → ℕ → Type 0
Best i k t bs r =
    ((r ≡ k) × All (Lighter t) bs)
    ⊎ ((j : ℕ) × (x : Bucket) × (u : TipSet) × (r ≡ i + j)
        × (get_elem? bs j ≡ some x)
        × (heaviest_tip_set x ≡ some u)
        × Outweighs u t
        × All (Lighter u) bs)

Lighter-self :
    (b : Bucket) (s t : TipSet) → heaviest_tip_set b ≡ some s → Outweighs t s → Lighter t b
Lighter-self b s t e o u f = let q : s ≡ u = ground arith in subst (Outweighs t) q o

best_index_lem :
    (i k : ℕ) (t : TipSet) (bs : List Bucket)
    → All HasTip bs
    → (r : ℕ) × (best_index i k (some t) bs ≡ some r) × Best i k t bs r
unfolding best_index
best_index_lem i k t [] h = (k, refl, inl (refl, tt))
best_index_lem i k t (b ∷ bs) ((s, e), h) =
    elim (Bool-cases (ltb_ℤ (parent_weight t) (parent_weight s))) [
      | inl lt ↦
          let (r, q, best) = best_index_lem (suc i) i s bs h in
          (r, rw (e, outweighed) (rw lt q), heavier r (ground arith) best)
      | inr ge ↦
          let (r, q, best) = best_index_lem (suc i) k t bs h in
          (r, rw (e, outweighed) (rw ge q), same r (ground arith) best)
    ]
  where
    heavier : (r : ℕ) → Outweighs s t → Best (suc i) i s bs r → Best i k t (b ∷ bs) r
    heavier r o (inl (p, all)) =
        inr (0, b, s, omega arith, refl, e, o, (Lighter-self b s s e (omega arith), all))
    heavier r o (inr (j, x, u, p, g, f, w, all)) =
        inr (suc j, x, u, omega arith, g, f, omega arith, (Lighter-self b s u e w, all))

    same : (r : ℕ) → Outweighs t s → Best (suc i) k t bs r → Best i k t (b ∷ bs) r
    same r o (inl (p, all)) = inl (p, (Lighter-self b s t e o, all))
    same r o (inr (j, x, u, p, g, f, w, all)) =
        inr (suc j, x, u, omega arith, g, f, w, (Lighter-self b s u e (omega arith), all))

remove_bucket-perm :
    (k : ℕ) (bs : List Bucket) (x : Bucket)
    → get_elem? bs k ≡ some x
    → Perm (x ∷ remove_bucket k bs) bs
unfolding remove_bucket
remove_bucket-perm k [] x e = absurd (cc)
remove_bucket-perm zero (b ∷ bs) x e =
    subst (λ y. Perm (y ∷ bs) (b ∷ bs)) (ground arith) (Perm.refl (b ∷ bs))
remove_bucket-perm (suc k) (b ∷ bs) x e =
    Perm.trans (Perm.swap b x (remove_bucket k bs)) (Perm.cons b (remove_bucket-perm k bs x e))

remove_bucket-All :
    (P : Bucket → Type 0) (k : ℕ) (bs : List Bucket) → All P bs → All P (remove_bucket k bs)
unfolding remove_bucket
remove_bucket-All P k [] a = tt
remove_bucket-All P zero (b ∷ bs) a = a.1
remove_bucket-All P (suc k) (b ∷ bs) a = (a.0, remove_bucket-All P k bs a.1)

-- What Pop returns, for a set of buckets `bs`.
pub record Popped (bs : List Bucket) (x : Bucket) (rest : List Bucket) : Type 0 where
  pub parts : Perm (x ∷ rest) bs
  pub tip : TipSet
  pub tip_of : heaviest_tip_set x ≡ some tip
  pub maximal : All (Lighter tip) bs
  pub rest_tips : All HasTip rest

-- On a nonempty set of buckets that all have a tip, Pop does not panic. It returns a bucket whose
-- heaviest tip is as heavy as that of every bucket, and the set of the others.
pub pop-Popped :
    (b : Bucket) (bs : List Bucket)
    → All HasTip (b ∷ bs)
    → (x : Bucket) × (rest : List Bucket) × (pop (b ∷ bs) ≡ some (x, rest)) × Popped (b ∷ bs) x rest
unfolding pop
pop-Popped b bs ((t, e), h) = let (k, q, best) = best_index_lem 1 0 t bs h in result k q best
  where
    at_k :
        (k j : ℕ) {x : Bucket} → k ≡ 1 + j → get_elem? bs j ≡ some x → get_elem? (b ∷ bs) k ≡ some x
    at_k k j {x} p g =
        let q : suc j ≡ k = omega arith in subst (λ n. get_elem? (b ∷ bs) n ≡ some x) q g

    result :
        (k : ℕ)
        → best_index 1 0 (some t) bs ≡ some k
        → Best 1 0 t bs k
        → (x : Bucket) × (rest : List Bucket) × (pop (b ∷ bs) ≡ some (x, rest))
          × Popped (b ∷ bs) x rest
    result k q (inl (p, all)) = (
      b,
      bs,
      rw e (rw q (rw p)),
      record {
        parts = Perm.refl (b ∷ bs);
        tip = t;
        tip_of = e;
        maximal = (Lighter-self b t t e (omega arith), all);
        rest_tips = h;
      },
    )
    result k q (inr (j, x, u, p, g, f, w, all)) = (
      x,
      remove_bucket k (b ∷ bs),
      rw e (rw q (rw (at_k k j p g))),
      record {
        parts = remove_bucket-perm k (b ∷ bs) x (at_k k j p g);
        tip = u;
        tip_of = f;
        maximal = (Lighter-self b t u e w, all);
        rest_tips = remove_bucket-All HasTip k (b ∷ bs) ((t, e), h);
      },
    )

-- Whatever Pop returns, with or without a nil tip on the way, is a bucket and the others.
pub pop-perm :
    (bs : List Bucket) (x : Bucket) (rest : List Bucket)
    → pop bs ≡ some (x, rest)
    → Perm (x ∷ rest) bs
unfolding pop
pop-perm [] x rest e = absurd (cc)
pop-perm (b ∷ bs) x rest e =
    let (k, p, f) = >>=-eq-some (best_index 1 0 (heaviest_tip_set b) bs) _ e in
    let (y, q, g) = >>=-eq-some (get_elem? (b ∷ bs) k) _ f in
    let xy : y ≡ x = cc in
    let same : remove_bucket k (b ∷ bs) ≡ rest = cc in
    subst (λ z. Perm (z ∷ rest) (b ∷ bs)) xy
      (subst (λ r. Perm (y ∷ r) (b ∷ bs)) same (remove_bucket-perm k (b ∷ bs) y q))
