-- ===== src/ChainStore/Index/Gap.antt =====
-- fillCache of chain/store/index.go for a tipset in the first skip of the chain.
use filecoin.Base.{
  ℕ, zero, suc, ◌≤◌, ◌<◌, ◌≡◌, refl, List, [], ◌∷◌, ◌==◌, Option, some, arith, inl, inr, Bool-cases,
}
use filecoin.Base.Lists.{length}
use filecoin.Base.Map.{Map}
use filecoin.Base.Int.{pos, negsuc, ◌-ℤ◌}
use filecoin.ChainTypes.TipSet.{TipSet, Key}
use filecoin.ChainStore.Index.{
  failed, ChainIndex, LbEntry, walk_loop, walk_back, round_height, skip_length, skip_target,
  fill_for, fill_cache,
}
use filecoin.ChainStore.Index.Walks.{Line}

module _ (load : Key → Option TipSet) (n : ℕ) where
  walk_loop_past :
      (fuel : ℕ) (ts : TipSet) (l : List TipSet)
      → length l < fuel
      → Line load ts l
      → walk_loop load (negsuc n) fuel ts ≡ failed
  unfolding walk_loop
  walk_loop_past zero ts l f c = absurd (omega (arith, f))
  walk_loop_past (suc fuel) ts [] f c = rw (c.1, walk_loop) refl
  walk_loop_past (suc fuel) ts (p ∷ l) f c =
      rw (c.0, walk_loop) (ground (arith, walk_loop_past fuel p l (omega (arith, f)) c.2))

  walk_back_past :
      (fuel : ℕ) (ts : TipSet) (l : List TipSet)
      → length l < fuel
      → Line load ts l
      → walk_back load fuel ts (negsuc n) ≡ failed
  unfolding walk_back
  walk_back_past fuel ts l f c = ground (arith, walk_loop_past fuel ts l f c)

before_first : (h : ℕ) → h < 20 → pos (round_height h) -ℤ pos skip_length ≡ negsuc 19
unfolding round_height ◌-ℤ◌
before_first h s = ground (arith, s)

skip_target_past :
    (load : Key → Option TipSet) (fuel : ℕ) (p : TipSet) (l : List TipSet)
    → length l < fuel
    → Line load p l
    → skip_target load fuel p (negsuc 19) ≡ failed
unfolding skip_target
skip_target_past load fuel p l f c = ground (arith, walk_back_past load 19 fuel p l f c)

-- fillCache fails for every tipset of a chain between genesis and the height of one skip, as it
-- looks for a height below 0 and walks past genesis, whose parents cannot be loaded.
pub fill_cache_fails :
    (ci : ChainIndex) (fuel : ℕ) (cache : Map Key LbEntry) (tsk : Key) (ts : TipSet)
    (l : List TipSet)
    → ci.load tsk ≡ some ts
    → 0 < ts.height
    → ts.height < skip_length
    → Line ci.load ts l
    → length l ≤ fuel
    → fill_cache ci fuel cache tsk ≡ failed
unfolding fill_cache fill_for
fill_cache_fails ci fuel cache tsk ts [] k h s c f = absurd (omega (arith, h, c.0))
fill_cache_fails ci fuel cache tsk ts (p ∷ l) k h s c f =
    rw (k, fill_cache)
      (elim (Bool-cases (ts.height == 0)) [
        | inl z ↦ absurd (ground (arith, h, z))
        | inr z ↦
            rw (z, c.0, fill_for)
              (rw
                (before_first ts.height s, skip_target_past ci.load fuel p l (omega (arith, f)) c.2)
                refl)
      ])
