-- ===== src/ChainTypes/TipSet/Canonical.antt =====
-- `NewTipSet` does not depend on the order in which the blocks come.
use mathlib.Core.List.{Perm}
use filecoin.Base.{ℕ, ◌≡◌, refl, ap, List, [], ◌∷◌, true, false, arith}
use filecoin.Base.Lists.{In, All-of, list_eq_iff}
use filecoin.Base.Sort.Canonical.{StrictTotal, sort_by-eq_of_perm}
use filecoin.ChainTypes.BlockHeader.{BlockHeader, Hashes, bytes_less}
use filecoin.ChainTypes.TipSet.{tipset_less, build_sorted, new_tip_set}

-- What identifies the blocks of one list: a CID, its bytes, and the digest of a ticket.
pub record Injective (h : Hashes) (blks : List BlockHeader) : Type 0 where
  pub cids : (a b : BlockHeader) → In a blks → In b blks → h.cid_of a ≡ h.cid_of b → a ≡ b
  pub bytes :
      (a b : BlockHeader)
      → In a blks
      → In b blks
      → h.cid_bytes (h.cid_of a) ≡ h.cid_bytes (h.cid_of b)
      → h.cid_of a ≡ h.cid_of b
  pub tickets :
      (a b : BlockHeader)
      → In a blks
      → In b blks
      → h.digest a.ticket.vrf_proof ≡ h.digest b.ticket.vrf_proof
      → a.ticket.vrf_proof ≡ b.ticket.vrf_proof

pub bytes_less_asym : (xs ys : List ℕ) → bytes_less xs ys ≡ true → bytes_less ys xs ≡ false
unfolding bytes_less
bytes_less_asym [] [] e = cc
bytes_less_asym [] (y ∷ ys) e = refl
bytes_less_asym (x ∷ xs) [] e = cc
bytes_less_asym (x ∷ xs) (y ∷ ys) e = ground (arith, bytes_less_asym xs ys)

pub bytes_less_tri :
    (xs ys : List ℕ) → bytes_less xs ys ≡ false → bytes_less ys xs ≡ false → xs ≡ ys
unfolding bytes_less
bytes_less_tri [] [] e f = refl
bytes_less_tri [] (y ∷ ys) e f = cc
bytes_less_tri (x ∷ xs) [] e f = cc
bytes_less_tri (x ∷ xs) (y ∷ ys) e f = ground (arith, bytes_less_tri xs ys)

pub bytes_less_trans :
    (xs ys zs : List ℕ)
    → bytes_less xs ys ≡ true
    → bytes_less ys zs ≡ true
    → bytes_less xs zs ≡ true
unfolding bytes_less
bytes_less_trans xs ys [] e f = cc
bytes_less_trans [] ys (z ∷ zs) e f = refl
bytes_less_trans (x ∷ xs) [] (z ∷ zs) e f = cc
bytes_less_trans (x ∷ xs) (y ∷ ys) (z ∷ zs) e f = ground (arith, bytes_less_trans xs ys zs)

module _ (h : Hashes) (blks : List BlockHeader) (inj : Injective h blks) where
  abbrev proof : BlockHeader → List ℕ
  proof b = b.ticket.vrf_proof

  abbrev name : BlockHeader → List ℕ
  name b = h.cid_bytes (h.cid_of b)

  less_asym :
      (a b : BlockHeader)
      → In a blks
      → In b blks
      → tipset_less h a b ≡ true
      → tipset_less h b a ≡ false
  unfolding tipset_less
  less_asym a b ia ib e = ground (
    arith,
    list_eq_iff (proof a) (proof b),
    list_eq_iff (proof b) (proof a),
    bytes_less_asym (name a) (name b),
    bytes_less_asym (h.digest (proof a)) (h.digest (proof b)),
  )

  less_tri :
      (a b : BlockHeader)
      → In a blks
      → In b blks
      → tipset_less h a b ≡ false
      → tipset_less h b a ≡ false
      → a ≡ b
  unfolding tipset_less
  less_tri a b ia ib e f = ground (
    arith,
    list_eq_iff (proof a) (proof b),
    list_eq_iff (proof b) (proof a),
    bytes_less_tri (name a) (name b),
    bytes_less_tri (h.digest (proof a)) (h.digest (proof b)),
    inj.cids a b ia ib,
    inj.bytes a b ia ib,
    inj.tickets a b ia ib,
  )

  less_trans :
      (a b c : BlockHeader)
      → In a blks
      → In b blks
      → In c blks
      → tipset_less h a b ≡ true
      → tipset_less h b c ≡ true
      → tipset_less h a c ≡ true
  unfolding tipset_less
  less_trans a b c ia ib ic e f = ground (
    arith,
    list_eq_iff (proof a) (proof b),
    list_eq_iff (proof b) (proof c),
    list_eq_iff (proof a) (proof c),
    bytes_less_trans (name a) (name b) (name c),
    bytes_less_trans (h.digest (proof a)) (h.digest (proof b)) (h.digest (proof c)),
    bytes_less_asym (h.digest (proof a)) (h.digest (proof b)),
  )

  tipset_less-StrictTotal : StrictTotal (tipset_less h) (λ b. In b blks)
  tipset_less-StrictTotal = record { asym = less_asym; tri = less_tri; trans = less_trans }

BlockHeader-set : IsSet BlockHeader
BlockHeader-set = hlevel

-- The same blocks give the same result of NewTipSet in whatever order they come, where CIDs
-- identify blocks and digests identify tickets.
pub new_tip_set_canonical :
    (h : Hashes) (xs ys : List BlockHeader)
    → Injective h xs
    → Perm xs ys
    → new_tip_set h xs ≡ new_tip_set h ys
unfolding new_tip_set
new_tip_set_canonical h xs ys inj p = ap (build_sorted h) (
    sort_by-eq_of_perm (tipset_less h) (λ b. In b xs) (tipset_less-StrictTotal h xs inj)
      BlockHeader-set xs ys p (All-of xs (λ b i. i)))
