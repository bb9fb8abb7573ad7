-- ===== src/SyncManager/Select.antt =====
-- selectSyncTarget and SetPeerHead: a target is found, and no peer has a heavier head.
use filecoin.Base.{◌≡◌, refl, subst, List, [], ◌∷◌, true, some, arith, Bool-cases, inl, inr, ltb}
use filecoin.Base.Lists.{All, All-of, any-find, In, here, there, All-In}
use filecoin.Base.Map.{values}
use filecoin.Base.Sort.{sort_by}
use filecoin.Base.Sort.Canonical.{sort_by-In}
use filecoin.Base.Int.{◌≤ℤ◌, ltb_ℤ}
use filecoin.ChainTypes.BlockHeader.{Hashes}
use filecoin.ChainTypes.TipSet.{TipSet, equals, parent_weight}
use filecoin.SyncManager.Bucket.{Bucket, insert, heaviest, heaviest_from, outweighed}
use filecoin.SyncManager.Bucket.Weight.{HasTip, Outweighs, heaviest_tip_set_max}
use filecoin.SyncManager.Bucket.Pop.{Lighter}
use filecoin.SyncManager.Bucket.Tips.{insert-HasTip}
use filecoin.SyncManager.State.{SyncManager, insert_all, select_sync_target}
use filecoin.SyncManager.Tracking.{has, held, held-insert, held-insert_keeps}

insert_all-HasTip :
    (h : Hashes) (bs : List Bucket) (l : List TipSet)
    → All HasTip bs
    → All HasTip (insert_all h bs l)
unfolding insert_all
insert_all-HasTip h bs [] a = a
insert_all-HasTip h bs (ts ∷ l) a = insert_all-HasTip h (insert h bs ts) l (insert-HasTip h bs ts a)

insert_all-keeps :
    (h : Hashes) (bs : List Bucket) (l : List TipSet) (u : TipSet)
    → held h bs u ≡ true
    → held h (insert_all h bs l) u ≡ true
unfolding insert_all
insert_all-keeps h bs [] u e = e
insert_all-keeps h bs (ts ∷ l) u e =
    insert_all-keeps h (insert h bs ts) l u (held-insert_keeps h bs ts u e)

insert_all-held :
    (h : Hashes) (bs : List Bucket) (l : List TipSet) (u : TipSet)
    → In u l
    → held h (insert_all h bs l) u ≡ true
unfolding insert_all
insert_all-held h bs [] u i = elim i [ ]
insert_all-held h bs (ts ∷ l) u here =
    insert_all-keeps h (insert h bs ts) l ts (held-insert h bs ts)
insert_all-held h bs (ts ∷ l) u (there i) = insert_all-held h (insert h bs ts) l u i

Lighter-trans : (b : Bucket) (s t : TipSet) → Outweighs t s → Lighter s b → Lighter t b
Lighter-trans b s t o l u e = let m = l u e in omega arith

-- The loop of Heaviest does not panic on buckets with tips, and ends with a heaviest tip.
heaviest_from_max :
    (t : TipSet) (bs : List Bucket)
    → All HasTip bs
    → (u : TipSet) × (heaviest_from (some t) bs ≡ some (some u))
      × Outweighs u t
      × All (Lighter u) bs
unfolding heaviest_from
heaviest_from_max t [] a = (t, refl, omega arith, tt)
heaviest_from_max t (b ∷ bs) ((s, e), a) =
    elim (Bool-cases (ltb_ℤ (parent_weight t) (parent_weight s))) [
      | inl f ↦
          let (u, g, o, all) = heaviest_from_max s bs a in
          (u, rw (e, outweighed) (rw f g), ground arith, (own u o, all))
      | inr f ↦
          let (u, g, o, all) = heaviest_from_max t bs a in
          (u, rw (e, outweighed) (rw f g), o, (own u (ground arith), all))
    ]
  where
    own : (u : TipSet) → Outweighs u s → Lighter u b
    own u o v w = let q : s ≡ v = ground arith in subst (λ x. Outweighs u x) q o

heaviest_max :
    (bs : List Bucket) (u : TipSet) (h : Hashes)
    → All HasTip bs
    → held h bs u ≡ true
    → (t : TipSet) × (heaviest bs ≡ some (some t)) × All (Lighter t) bs
unfolding heaviest heaviest_from
heaviest_max [] u h a e = absurd (cc)
heaviest_max (b ∷ bs) u h ((s, e), a) k =
    let (t, g, o, all) = heaviest_from_max s bs a in
    (t, rw e g, (λ v w. let q : s ≡ v = ground arith in subst (λ x. Outweighs t x) q o, all))

module _ (h : Hashes)
    (weigh : (a b : TipSet) → equals h a b ≡ true → parent_weight a ≡ parent_weight b) where
  held-Lighter :
      (bs : List Bucket) (t u : TipSet)
      → All HasTip bs
      → All (Lighter t) bs
      → held h bs u ≡ true
      → Outweighs t u
  held-Lighter [] t u a l k = absurd (cc)
  held-Lighter (b ∷ bs) t u ((s, e), a) l k = elim (Bool-cases (has h b u)) [
    | inl f ↦
        let (v, i, q) = any-find (λ x. equals h x u) b.tips f in
        let below = All-In (Outweighs s) i (heaviest_tip_set_max b s e).1 in
        let top = l.0 s e in
        let same = weigh v u q in subst (λ w. w ≤ℤ parent_weight t) same (omega arith)
    | inr f ↦ held-Lighter bs t u a l.1 (rw f at k)
  ]

  -- With a head known from some peer, selectSyncTarget finds a target, without a panic, and no
  -- peer's head is heavier, where tipsets with the same CIDs have the same weight.
  pub select_sync_target_max :
      (sm : SyncManager) (first : TipSet)
      → In first (values sm.peer_heads)
      → (target : TipSet) × (select_sync_target h sm ≡ some (some target))
        × All (Outweighs target) (values sm.peer_heads)
  unfolding select_sync_target
  select_sync_target_max sm first i =
      let less = λ (a b : TipSet). ltb a.height b.height in
      let heads = sort_by less (values sm.peer_heads) in
      let bs = insert_all h [] heads in
      let tips = insert_all-HasTip h [] heads tt in
      let in_bs = λ (ts : TipSet) (j : In ts (values sm.peer_heads)).
        insert_all-held h [] heads ts (sort_by-In less (values sm.peer_heads) j) in
      let (t, g, all) = heaviest_max bs first h tips (in_bs first i) in
      (t, g, All-of (values sm.peer_heads) (λ ts j. held-Lighter bs t ts tips all (in_bs ts j)))
