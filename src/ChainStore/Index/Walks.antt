-- ===== src/ChainStore/Index/Walks.antt =====
-- What walkBack of chain/store/index.go finds on a chain.
use filecoin.Base.{
  ℕ, zero, suc, ◌≤◌, ◌<◌, ◌≡◌, subst, ◌⊎◌, inl, inr, List, [], ◌∷◌, ltb, ◌==◌, Option, none, some,
  arith, Bool-cases,
}
use filecoin.Base.Lists.{All, length, In, here, there}
use filecoin.Base.Int.{pos}
use filecoin.ChainTypes.TipSet.{TipSet, Key, parents}
use filecoin.ChainStore.Index.{found, walk_loop, walk_back}

-- The chain below a tipset, down to genesis, whose parents cannot be loaded.
abbrev pub Line : (Key → Option TipSet) → TipSet → List TipSet → Type 0
Line load ts [] = (ts.height ≡ 0) × (load (parents ts) ≡ none)
Line load ts (p ∷ l) = (load (parents ts) ≡ some p) × (p.height < ts.height) × Line load p l

-- `t` is at the height `to` or above, and of the chain's tipsets the lowest such.
pub record Lowest (to : ℕ) (chain : List TipSet) (t : TipSet) : Type 0 where
  pub on_chain : In t chain
  pub reached : to ≤ t.height
  pub lowest : All (λ u. (u.height < to) ⊎ (t.height ≤ u.height)) chain

below :
    (load : Key → Option TipSet) (ts : TipSet) (l : List TipSet) (n : ℕ)
    → ts.height < n
    → Line load ts l
    → All (λ u. u.height < n) l
below load ts [] n h c = tt
below load ts (p ∷ l) n h c = (omega (arith, h, c.1), below load p l n (omega (arith, h, c.1)) c.2)

under :
    (load : Key → Option TipSet) (ts : TipSet) (l : List TipSet)
    → Line load ts l
    → All (λ u. u.height < ts.height) l
under load ts [] c = tt
under load ts (p ∷ l) c = (c.1, below load p l ts.height c.1 c.2)

widen :
    (to : ℕ) (ts p : TipSet) (l : List TipSet) (t : TipSet)
    → p.height < ts.height
    → to ≤ p.height
    → Lowest to (p ∷ l) t
    → Lowest to (ts ∷ p ∷ l) t
widen to ts p l t h k w = record {
  on_chain = there w.on_chain;
  reached = w.reached;
  lowest = (higher w.lowest.0, w.lowest);
}
  where
    higher : (p.height < to) ⊎ (t.height ≤ p.height) → (ts.height < to) ⊎ (t.height ≤ ts.height)
    higher (inl q) = absurd (omega arith)
    higher (inr q) = inr (omega arith)

beyond :
    (t : TipSet) (to : ℕ) (l : List TipSet)
    → All (λ u. u.height < to) l
    → All (λ u. (u.height < to) ⊎ (t.height ≤ u.height)) l
beyond t to [] a = tt
beyond t to (u ∷ l) a = (inl a.0, beyond t to l a.1)

level : (m n : ℕ) (l : List TipSet) → All (λ u. u.height < m) l → m ≡ n → All (λ u. u.height < n) l
level m n l a q = subst (λ k. All (λ u. u.height < k) l) q a

module _ (load : Key → Option TipSet) (to : ℕ) where
  walk_loop-Lowest :
      (fuel : ℕ) (ts : TipSet) (l : List TipSet)
      → length l ≤ fuel
      → to < ts.height
      → Line load ts l
      → (t : TipSet) × (walk_loop load (pos to) fuel ts ≡ found t) × Lowest to (ts ∷ l) t
  unfolding walk_loop
  walk_loop-Lowest fuel ts [] f h c = absurd (omega (arith, h, c.0))
  walk_loop-Lowest zero ts (p ∷ l) f h c = absurd (omega (arith, f))
  walk_loop-Lowest (suc fuel) ts (p ∷ l) f h (e, lt, c) = elim (Bool-cases (ltb p.height to)) [
    | inl d ↦ (
      ts,
      rw (e, walk_loop) (ground (arith, d)),
      record {
        on_chain = here;
        reached = omega (arith, h);
        lowest = (
          inr (omega arith),
          (inl (ground (arith, d)), beyond ts to l (below load p l to (ground (arith, d)) c)),
        );
      },
    )
    | inr d ↦ elim (Bool-cases (to == p.height)) [
      | inl q ↦ (
        p,
        rw (e, walk_loop) (ground (arith, d, q)),
        record {
          on_chain = there here;
          reached = ground (arith, q);
          lowest = (
            inr (omega (arith, lt)),
            (
              inr (omega arith),
              beyond p to l (level p.height to l (under load p l c) (ground (arith, q))),
            ),
          );
        },
      )
      | inr q ↦
          let (t, g, w) = walk_loop-Lowest fuel p l (omega (arith, f)) (ground (arith, d, q)) c in
          (
            t,
            rw (e, walk_loop) (ground (arith, d, q, g)),
            widen to ts p l t lt (ground (arith, d)) w,
          )
    ]
  ]

  -- On a chain down to genesis, with a round of the loop for each tipset below the first,
  -- walkBack finds for a height that is not above the first tipset the lowest tipset of the chain
  -- at that height or above; it does not fail, and the loop ends.
  pub walk_back-Lowest :
      (fuel : ℕ) (from : TipSet) (l : List TipSet)
      → length l ≤ fuel
      → to ≤ from.height
      → Line load from l
      → (t : TipSet) × (walk_back load fuel from (pos to) ≡ found t) × Lowest to (from ∷ l) t
  unfolding walk_back
  walk_back-Lowest fuel from l f h c = elim (Bool-cases (to == from.height)) [
    | inl q ↦ (
      from,
      ground (arith, h, q),
      record {
        on_chain = here;
        reached = h;
        lowest = (
          inr (omega arith),
          beyond from to l (level from.height to l (under load from l c) (ground (arith, q))),
        );
      },
    )
    | inr q ↦
        let (t, g, w) = walk_loop-Lowest fuel from l f (ground (arith, h, q)) c in
        (t, ground (arith, h, q, g), w)
  ]
