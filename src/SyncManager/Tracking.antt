-- ===== src/SyncManager/Tracking.antt =====
-- Which tipsets wait in the scheduler, and that its steps lose none.
pub mod Incoming
pub mod Result
use mathlib.Core.Bool.{Bool-set}
use mathlib.Core.Logic.{∥∥₁_elim}
use mathlib.Core.List.{Perm, Permᴰ}
use filecoin.Base.{
  ℕ, ◌+◌, ◌≡◌, refl, subst, ap, ◌∙◌, List, [], ◌∷◌, ◌++◌, Bool, true, false, if◌then◌else◌, ◌||◌,
  Option, none, some, arith, Bool-cases, inl, inr, ◌==◌, ==_refl,
}
use filecoin.Base.Lists.{All, any}
use filecoin.ChainTypes.BlockHeader.{Hashes, BlockHeader}
use filecoin.ChainTypes.TipSet.{TipSet, equals, same_cids, blocks}
use filecoin.SyncManager.Bucket.{Bucket, add, new_bucket, insert, same_chain_as, pop_related}
use filecoin.SyncManager.State.{SyncManager}

-- A tip of the bucket equals `ts`.
abbrev pub has : Hashes → Bucket → TipSet → Bool
has h b ts = any (λ t. equals h t ts) b.tips

-- A bucket of the set has such a tip.
abbrev pub held : Hashes → List Bucket → TipSet → Bool
held h bs ts = any (λ b. has h b ts) bs

abbrev pub held_next : Hashes → Option Bucket → TipSet → Bool
held_next h none ts = false
held_next h (some b) ts = has h b ts

-- A tipset that equals `ts` waits in a bucket.
abbrev pub waiting : Hashes → SyncManager → TipSet → Bool
waiting h sm ts =
    held h sm.sync_queue ts || held h sm.active_sync_tips ts || held_next h sm.next_sync_target ts

same_cids_refl : (h : Hashes) (bs : List BlockHeader) → same_cids h bs bs ≡ true
unfolding same_cids
same_cids_refl h [] = refl
same_cids_refl h (b ∷ bs) = ground (arith, same_cids_refl h bs)

pub equals_refl : (h : Hashes) (ts : TipSet) → equals h ts ts ≡ true
unfolding equals
equals_refl h ts = ground (arith, same_cids_refl h (blocks ts))

pub any-snoc {ℓ} :
    {A : Type ℓ} (p : A → Bool) (xs : List A) (x : A) → any p (xs ++ x ∷ []) ≡ (any p xs || p x)
any-snoc p [] x = ground arith
any-snoc p (y ∷ xs) x = ground (arith, any-snoc p xs x)

any-Permᴰ {ℓ} : {A : Type ℓ} (p : A → Bool) {xs ys : List A} → Permᴰ xs ys → any p xs ≡ any p ys
any-Permᴰ p Permᴰ.nil = refl
any-Permᴰ p (Permᴰ.cons e q) = ground (arith, ap p e, any-Permᴰ p q)
any-Permᴰ p (Permᴰ.swap e f) = ground (arith, ap p e, ap p f)
any-Permᴰ p (Permᴰ.trans q r) = any-Permᴰ p q ∙ any-Permᴰ p r

pub any-perm {ℓ} : {A : Type ℓ} (p : A → Bool) {xs ys : List A} → Perm xs ys → any p xs ≡ any p ys
any-perm p q = ∥∥₁_elim q (Bool-set _ _) (λ r. any-Permᴰ p r)

pub has-add : (h : Hashes) (b : Bucket) (ts : TipSet) → has h (add h b ts) ts ≡ true
unfolding add
has-add h b ts = ground (arith, any-snoc (λ t. equals h t ts) b.tips ts, equals_refl h ts)

pub has-add_keeps :
    (h : Hashes) (b : Bucket) (ts u : TipSet) → has h b u ≡ true → has h (add h b ts) u ≡ true
unfolding add
has-add_keeps h b ts u e = ground (arith, any-snoc (λ t. equals h t u) b.tips ts)

pub held-insert : (h : Hashes) (bs : List Bucket) (ts : TipSet) → held h (insert h bs ts) ts ≡ true
unfolding insert new_bucket
held-insert h [] ts = ground (arith, has-add h (record { tips = []; count = 0 }) ts)
held-insert h (b ∷ bs) ts = ground (arith, has-add h b ts, held-insert h bs ts)

pub held-insert_keeps :
    (h : Hashes) (bs : List Bucket) (ts u : TipSet)
    → held h bs u ≡ true
    → held h (insert h bs ts) u ≡ true
unfolding insert new_bucket
held-insert_keeps h [] ts u e = cc
held-insert_keeps h (b ∷ bs) ts u e =
    ground (arith, has-add_keeps h b ts u, held-insert_keeps h bs ts u)

-- What PopRelated takes and leaves is what there was.
pub held-pop_related :
    (h : Hashes) (bs : List Bucket) (ts u : TipSet)
    → held h bs u ≡ (held_next h (pop_related h bs ts).0 u || held h (pop_related h bs ts).1 u)
unfolding pop_related
held-pop_related h [] ts u = refl
held-pop_related h (b ∷ bs) ts u = ground (arith, held-pop_related h bs ts u)

-- The first bucket that is of the chain of `ts`.
pub record FirstRelated (h : Hashes) (ts : TipSet) (bs : List Bucket) (b : Bucket) : Type 0 where
  pub earlier : List Bucket
  pub later : List Bucket
  pub place : bs ≡ earlier ++ b ∷ later
  pub unrelated : All (λ c. same_chain_as h c ts ≡ false) earlier
  pub related_one : same_chain_as h b ts ≡ true

pub pop_related-FirstRelated :
    (h : Hashes) (bs : List Bucket) (ts : TipSet) (b : Bucket)
    → (pop_related h bs ts).0 ≡ some b
    → FirstRelated h ts bs b
unfolding pop_related
pop_related-FirstRelated h [] ts b e = absurd (cc)
pop_related-FirstRelated h (c ∷ bs) ts b e = elim (Bool-cases (same_chain_as h c ts)) [
  | inl f ↦
      let one : c ≡ b = ground (arith, e, f) in
      record {
        earlier = [];
        later = bs;
        place = ap (λ x. x ∷ bs) one;
        unrelated = tt;
        related_one = subst (λ x. same_chain_as h x ts ≡ true) one f;
      }
  | inr f ↦
      let r = pop_related-FirstRelated h bs ts b (ground (arith, e, f)) in
      record {
        earlier = c ∷ r.earlier;
        later = r.later;
        place = ap (λ l. c ∷ l) r.place;
        unrelated = (f, r.unrelated);
        related_one = r.related_one;
      }
]
