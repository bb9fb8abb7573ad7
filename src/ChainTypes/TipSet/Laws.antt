-- ===== src/ChainTypes/TipSet/Laws.antt =====
-- What `NewTipSet` accepts and builds, and that the order of the given blocks does not matter.
use mathlib.Core.List.{Perm}
use filecoin.Base.{
  ℕ, ◌≡◌, refl, ap, sym, subst, ◌∙◌, inl, inr, List, [], ◌∷◌, map, true, arith, Bool-cases, ◌==◌,
}
use filecoin.Base.Lists.{length, All}
use filecoin.Base.Sort.{sort_by, sort_by-perm}
use filecoin.Base.Sort.Canonical.{sort_by-All, sort_by-cons}
use filecoin.ChainTypes.BlockHeader.{BlockHeader, Hashes}
use filecoin.ChainTypes.TipSet.{
  TipSet, Result, ok, err, blocks, tipset_less, parents_agree, check_blocks, build_sorted,
  new_tip_set, ◌>>=◌,
}

-- A block can stand beside `b0` in a tipset.
abbrev pub Fits : BlockHeader → BlockHeader → Type 0
Fits b0 b = (b.height ≡ b0.height) × (b.parents ≡ b0.parents)

-- What every tipset satisfies that `NewTipSet` has built.
pub record IsTipSet (h : Hashes) (ts : TipSet) : Type 0 where
  pub cids_of : ts.cids ≡ map h.cid_of (blocks ts)
  pub height_of : ts.height ≡ ts.blk0.height
  pub uniform : All (Fits ts.blk0) ts.blks_rest

parents_agree_eq : (cs ps : List ℕ) → length ps ≡ length cs → parents_agree cs ps ≡ true → cs ≡ ps
unfolding parents_agree
parents_agree_eq [] [] e h = refl
parents_agree_eq [] (p ∷ ps) e h = absurd (omega arith)
parents_agree_eq (c ∷ cs) [] e h = absurd (omega arith)
parents_agree_eq (c ∷ cs) (p ∷ ps) e h = ground (arith, parents_agree_eq cs ps)

parents_agree_refl : (cs : List ℕ) → parents_agree cs cs ≡ true
unfolding parents_agree
parents_agree_refl [] = refl
parents_agree_refl (c ∷ cs) = ground (arith, parents_agree_refl cs)

-- What the loop's result says of the blocks.
abbrev Checked : Hashes → BlockHeader → List BlockHeader → Result (List ℕ) → Type 0
Checked h b0 bs (ok cs) = (cs ≡ map h.cid_of bs) × All (Fits b0) bs
Checked h b0 bs (err e) = Unit

check_step :
    (h : Hashes) (b0 b : BlockHeader) (bs : List BlockHeader) (r : Result (List ℕ))
    → Fits b0 b
    → Checked h b0 bs r
    → Checked h b0 (b ∷ bs) (do cs ← r; ok (h.cid_of b ∷ cs))
check_step h b0 b bs (ok cs) f c = (ap (λ l. h.cid_of b ∷ l) c.0, (f, c.1))
check_step h b0 b bs (err e) f c = tt

check_blocks_sound :
    (h : Hashes) (b0 : BlockHeader) (bs : List BlockHeader) → Checked h b0 bs (check_blocks h b0 bs)
unfolding check_blocks
check_blocks_sound h b0 [] = (refl, tt)
check_blocks_sound h b0 (b ∷ bs) = elim (Bool-cases (b.height == b0.height)) [
  | inr e ↦ rw e tt
  | inl e ↦ rw e (elim (Bool-cases (length b0.parents == length b.parents)) [
    | inr f ↦ rw f tt
    | inl f ↦ rw f (elim (Bool-cases (parents_agree b.parents b0.parents)) [
      | inr g ↦ rw g tt
      | inl g ↦ rw g (
          check_step h b0 b bs (check_blocks h b0 bs)
            (ground arith, parents_agree_eq b.parents b0.parents (ground arith) g)
            (check_blocks_sound h b0 bs))
    ])
  ])
]

check_blocks_complete :
    (h : Hashes) (b0 : BlockHeader) (bs : List BlockHeader)
    → All (Fits b0) bs
    → check_blocks h b0 bs ≡ ok (map h.cid_of bs)
unfolding check_blocks
check_blocks_complete h b0 [] a = refl
check_blocks_complete h b0 (b ∷ bs) a =
    ground (arith, check_blocks_complete h b0 bs a.1, parents_agree_refl b.parents, ap length a.0.1)

abbrev Built : Hashes → List BlockHeader → Result TipSet → Type 0
Built h bs (ok ts) = IsTipSet h ts × (blocks ts ≡ bs)
Built h bs (err e) = Unit

build_sorted_sound : (h : Hashes) (bs : List BlockHeader) → Built h bs (build_sorted h bs)
unfolding build_sorted
build_sorted_sound h [] = tt
build_sorted_sound h (b ∷ bs) = go (check_blocks h b bs) (check_blocks_sound h b bs)
  where
    go :
        (r : Result (List ℕ))
        → Checked h b bs r
        → Built h (b ∷ bs) (do
          cs ← r
          ok (record { cids = h.cid_of b ∷ cs; blk0 = b; blks_rest = bs; height = b.height }))
    go (ok cs) c =
        (record { cids_of = ap (λ l. h.cid_of b ∷ l) c.0; height_of = refl; uniform = c.1 }, refl)
    go (err e) c = tt

-- A tipset that NewTipSet returns has the given blocks, rearranged, all of the height and the
-- parents of the first, with their CIDs in the same order.
pub new_tip_set-IsTipSet :
    (h : Hashes) (blks : List BlockHeader) (ts : TipSet)
    → new_tip_set h blks ≡ ok ts
    → IsTipSet h ts × Perm (blocks ts) blks
unfolding new_tip_set
new_tip_set-IsTipSet h blks ts e =
    let b =
      subst (Built h (sort_by (tipset_less h) blks)) e
        (build_sorted_sound h (sort_by (tipset_less h) blks)) in
    (b.0, subst (λ l. Perm l blks) (sym b.1) (sort_by-perm (tipset_less h) blks))

Fits-same : (b c d : BlockHeader) → Fits b c → Fits b d → Fits c d
Fits-same b c d f g = (g.0 ∙ sym f.0, g.1 ∙ sym f.1)

All-Fits :
    (b c : BlockHeader) (ds : List BlockHeader) → Fits b c → All (Fits b) ds → All (Fits c) ds
All-Fits b c [] f a = tt
All-Fits b c (d ∷ ds) f a = (Fits-same b c d f a.0, All-Fits b c ds f a.1)

-- NewTipSet accepts every nonempty list of blocks of one height and the same parents.
pub new_tip_set_complete :
    (h : Hashes) (b : BlockHeader) (bs : List BlockHeader)
    → All (Fits b) bs
    → (ts : TipSet) × (new_tip_set h (b ∷ bs) ≡ ok ts)
unfolding new_tip_set build_sorted
new_tip_set_complete h b bs a =
    let (c, cs, e) = sort_by-cons (tipset_less h) b bs in
    let sorted =
      subst (All (Fits b)) e (sort_by-All (tipset_less h) (Fits b) (b ∷ bs) ((refl, refl), a)) in
    let checked = check_blocks_complete h c cs (All-Fits b c cs sorted.0 sorted.1) in
    (
      record { cids = map h.cid_of (c ∷ cs); blk0 = c; blks_rest = cs; height = c.height },
      rw e (rw checked),
    )
