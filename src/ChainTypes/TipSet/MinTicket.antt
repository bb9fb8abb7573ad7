-- ===== src/ChainTypes/TipSet/MinTicket.antt =====
-- The block with the least ticket of a tipset.
use filecoin.Base.{
  ℕ, ◌≡◌, refl, subst, sym, List, [], ◌∷◌, Bool, true, false, arith, inl, inr, Bool-cases,
}
use filecoin.Base.Lists.{All, In, here, there}
use filecoin.ChainTypes.BlockHeader.{BlockHeader, Hashes, bytes_less, ticket_less}
use filecoin.ChainTypes.TipSet.{TipSet, blocks, min_ticket_from, min_ticket_block}
use filecoin.ChainTypes.TipSet.Canonical.{bytes_less_asym, bytes_less_tri, bytes_less_trans}

abbrev least : Hashes → BlockHeader → BlockHeader → Bool
least h a b = bytes_less (h.digest a.ticket.vrf_proof) (h.digest b.ticket.vrf_proof)

bytes_less_irrefl : (xs : List ℕ) → bytes_less xs xs ≡ false
bytes_less_irrefl xs = elim (Bool-cases (bytes_less xs xs)) [
  | inr e ↦ e
  | inl e ↦ bytes_less_asym xs xs e
]

-- what is not less than `ys` is not less than what `ys` is not less than
not_less_trans :
    (xs ys zs : List ℕ)
    → bytes_less xs ys ≡ false
    → bytes_less ys zs ≡ false
    → bytes_less xs zs ≡ false
not_less_trans xs ys zs e f = elim (Bool-cases (bytes_less xs zs)) [
  | inr g ↦ g
  | inl g ↦ elim (Bool-cases (bytes_less zs ys)) [
    | inl k ↦ absurd (ground (arith, bytes_less_trans xs zs ys g k, e))
    | inr k ↦
        absurd (
          ground (arith, subst (λ w. bytes_less xs w ≡ true) (sym (bytes_less_tri ys zs f k)) g, e))
  ]
]

-- No ticket of a block is less than that of `m`.
abbrev pub NoneLess : Hashes → BlockHeader → List BlockHeader → Type 0
NoneLess h m l = All (λ b. ticket_less h b.ticket m.ticket ≡ false) l

module _ (h : Hashes) where
  min_ticket_from-NoneLess :
      (m : BlockHeader) (l : List BlockHeader)
      → In (min_ticket_from h m l) (m ∷ l) × NoneLess h (min_ticket_from h m l) (m ∷ l)
  unfolding min_ticket_from ticket_less
  min_ticket_from-NoneLess m [] = (here, (bytes_less_irrefl (h.digest m.ticket.vrf_proof), tt))
  min_ticket_from-NoneLess m (b ∷ l) = elim (Bool-cases (least h b m)) [
    | inl e ↦
        let (i, (n, rest)) = min_ticket_from-NoneLess b l in
        let step : min_ticket_from h b l ≡ min_ticket_from h m (b ∷ l) = rw e refl in
        subst (λ r. In r (m ∷ b ∷ l) × NoneLess h r (m ∷ b ∷ l)) step
          (
            there i,
            (
              not_less_trans (dig m) (dig b) (dig (min_ticket_from h b l))
                  (bytes_less_asym (dig b) (dig m) e) n,
              (n, rest),
            ),
          )
    | inr e ↦
        let (i, (n, rest)) = min_ticket_from-NoneLess m l in
        let step : min_ticket_from h m l ≡ min_ticket_from h m (b ∷ l) = rw e refl in
        subst (λ r. In r (m ∷ b ∷ l) × NoneLess h r (m ∷ b ∷ l)) step
          (skip i, (n, (not_less_trans (dig b) (dig m) (dig (min_ticket_from h m l)) e n, rest)))
  ]
    where
      dig : BlockHeader → List ℕ
      dig x = h.digest x.ticket.vrf_proof

      skip : {x : BlockHeader} → In x (m ∷ l) → In x (m ∷ b ∷ l)
      skip here = here
      skip (there i) = there (there i)

  -- The block that MinTicketBlock returns is one of the tipset's, and no block's ticket is less.
  pub min_ticket_block-NoneLess :
      (ts : TipSet)
      → In (min_ticket_block h ts) (blocks ts) × NoneLess h (min_ticket_block h ts) (blocks ts)
  unfolding min_ticket_block
  min_ticket_block-NoneLess ts = min_ticket_from-NoneLess ts.blk0 ts.blks_rest
