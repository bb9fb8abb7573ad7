-- ===== src/ChainTypes/TipSet.antt =====
-- chain/types/tipset.go. `blks` is never empty in a tipset that `NewTipSet` has built, so its
-- first element is a field of its own.
pub mod Laws
pub mod Canonical
pub mod MinTicket
use filecoin.Base.{ℕ, List, [], ◌∷◌, Bool, true, false, ltb, ◌==◌, if◌then◌else◌, not, ◌&&◌}
use filecoin.Base.Lists.{list_eq, length}
use filecoin.Base.Sort.{sort_by}
use filecoin.Base.Int.{ℤ}
use filecoin.ChainTypes.BlockHeader.{
  BlockHeader, Ticket, Hashes, bytes_less, ticket_equals, ticket_less, cid_arrs_contains,
}

pub record TipSet : Type 0 where
  pub cids : List ℕ
  pub blk0 : BlockHeader
  pub blks_rest : List BlockHeader
  pub height : ℕ

pub data TipSetError : Type 0 where
  zero_length mismatching_heights mismatching_parent_count mismatching_parents : TipSetError

pub data Result (A : Type 0) : Type 0 where
  ok : A → Result A
  err : TipSetError → Result A

infixl 5 ◌>>=◌
abbrev ◌>>=◌ : {A B : Type 0} → Result A → (A → Result B) → Result B
ok a >>= f = f a
err e >>= f = err e

abbrev pub blocks : TipSet → List BlockHeader
blocks ts = ts.blk0 ∷ ts.blks_rest

unfoldable pub tipset_less : Hashes → BlockHeader → BlockHeader → Bool
unfolding ticket_equals ticket_less bytes_less
tipset_less h a b =
    if ticket_equals a.ticket b.ticket
    then bytes_less (h.cid_bytes (h.cid_of a)) (h.cid_bytes (h.cid_of b))
    else ticket_less h a.ticket b.ticket

-- the loop over `b.Parents` against `blks[0].Parents`, of the same length
unfoldable pub parents_agree : List ℕ → List ℕ → Bool
parents_agree [] ps = true
parents_agree (c ∷ cs) [] = false
parents_agree (c ∷ cs) (p ∷ ps) = let rest = parents_agree cs ps in if c == p then rest else false

-- the loop over `blks[1:]`; it returns the CIDs that it appends
unfoldable pub check_blocks : Hashes → BlockHeader → List BlockHeader → Result (List ℕ)
unfolding parents_agree
check_blocks h b0 [] = ok []
check_blocks h b0 (b ∷ bs) =
    let rest = check_blocks h b0 bs in
    if not (b.height == b0.height)
    then err mismatching_heights
    else if not (length b0.parents == length b.parents)
    then err mismatching_parent_count
    else if not (parents_agree b.parents b0.parents)
    then err mismatching_parents
    else (do cs ← rest; ok (h.cid_of b ∷ cs))

unfoldable pub build_sorted : Hashes → List BlockHeader → Result TipSet
unfolding check_blocks
build_sorted h [] = err zero_length
build_sorted h (b ∷ bs) = do
  cs ← check_blocks h b bs
  ok (record { cids = h.cid_of b ∷ cs; blk0 = b; blks_rest = bs; height = b.height })

unfoldable pub new_tip_set : Hashes → List BlockHeader → Result TipSet
unfolding build_sorted tipset_less
new_tip_set h blks = build_sorted h (sort_by (tipset_less h) blks)

-- A key is the concatenation of the CIDs' bytes; it determines (see `ChainTypes.TipSetKey`)
-- the list of the CIDs, which stands for it here.
abbrev pub Key : Type 0
Key = List ℕ

unfoldable pub key : TipSet → Key
key ts = ts.cids

unfoldable pub parents : TipSet → Key
parents ts = ts.blk0.parents

unfoldable pub parent_weight : TipSet → ℤ
parent_weight ts = ts.blk0.parent_weight

unfoldable pub parent_state : TipSet → ℕ
parent_state ts = ts.blk0.parent_state_root

unfoldable pub same_cids : Hashes → List BlockHeader → List BlockHeader → Bool
same_cids h [] os = true
same_cids h (b ∷ bs) [] = false
same_cids h (b ∷ bs) (o ∷ os) =
    let rest = same_cids h bs os in if h.cid_of b == h.cid_of o then rest else false

-- of two tipsets that are not nil
unfoldable pub equals : Hashes → TipSet → TipSet → Bool
unfolding same_cids
equals h ts ots =
    if length (blocks ts) == length (blocks ots)
    then same_cids h (blocks ts) (blocks ots)
    else false

unfoldable pub contains : TipSet → ℕ → Bool
unfolding cid_arrs_contains
contains ts oc = cid_arrs_contains ts.cids oc

unfoldable pub min_timestamp_from : ℕ → List BlockHeader → ℕ
min_timestamp_from m [] = m
min_timestamp_from m (b ∷ bs) = min_timestamp_from (if ltb b.timestamp m then b.timestamp else m) bs

unfoldable pub min_timestamp : TipSet → ℕ
unfolding min_timestamp_from
min_timestamp ts = min_timestamp_from ts.blk0.timestamp ts.blks_rest

unfoldable pub min_ticket_from : Hashes → BlockHeader → List BlockHeader → BlockHeader
min_ticket_from h m [] = m
min_ticket_from h m (b ∷ bs) =
    min_ticket_from h (if ticket_less h b.ticket m.ticket then b else m) bs

unfoldable pub min_ticket_block : Hashes → TipSet → BlockHeader
unfolding min_ticket_from ticket_less
min_ticket_block h ts = min_ticket_from h ts.blk0 ts.blks_rest

unfoldable pub min_ticket : Hashes → TipSet → Ticket
unfolding min_ticket_block
min_ticket h ts = (min_ticket_block h ts).ticket
