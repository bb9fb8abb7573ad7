-- ===== src/Tests/Chain.antt =====
-- Tipsets of two blocks.
use mathlib.Core.List.{Perm}
use mathlib.Core.List.Perm
use filecoin.Base.{ℕ, ◌≡◌, refl, arith, List, [], ◌∷◌, Option, none, some}
use filecoin.Base.Lists.{In, here, there}
use filecoin.Base.Sort.{sort_by}
use filecoin.ChainTypes.BlockHeader.{BlockHeader}
use filecoin.ChainTypes.TipSet.MinTicket.{NoneLess, min_ticket_block-NoneLess}
use filecoin.ChainTypes.TipSet.{min_ticket_block, TipSet, ok, blocks, new_tip_set}
use filecoin.ChainTypes.TipSet.Laws.{IsTipSet, new_tip_set-IsTipSet, new_tip_set_complete}
use filecoin.ChainTypes.TipSet.Canonical.{Injective, new_tip_set_canonical}
use filecoin.ChainTypes.TipSetKey.{CidBytes, Reads, encode_key, decode_key, decode_key-encode_key}
use filecoin.Tests.{hashes, block}

abbrev low : BlockHeader
low = block 3 1 10 5

abbrev high : BlockHeader
high = block 4 1 10 5

abbrev both : TipSet
both = record { cids = 3 ∷ 4 ∷ []; blk0 = low; blks_rest = high ∷ []; height = 5 }

built : new_tip_set hashes (high ∷ low ∷ []) ≡ ok both
unfolding new_tip_set sort_by
built = refl

new_tip_set-IsTipSet_example : IsTipSet hashes both × Perm (blocks both) (high ∷ low ∷ [])
new_tip_set-IsTipSet_example = new_tip_set-IsTipSet hashes (high ∷ low ∷ []) both built

new_tip_set_complete_example : (ts : TipSet) × (new_tip_set hashes (high ∷ low ∷ []) ≡ ok ts)
new_tip_set_complete_example = new_tip_set_complete hashes high (low ∷ []) ((refl, refl), tt)

two-Injective : Injective hashes (high ∷ low ∷ [])
two-Injective = record { cids = same; bytes = λ a b i j e. cc; tickets = λ a b i j e. e }
  where
    same :
        (a b : BlockHeader)
        → In a (high ∷ low ∷ [])
        → In b (high ∷ low ∷ [])
        → a.miner ≡ b.miner
        → a ≡ b
    same _ b here (there (there i)) e = elim i [ ]
    same _ b (there here) (there (there i)) e = elim i [ ]
    same a b (there (there i)) _ e = elim i [ ]
    same a b here here e = refl
    same a b here (there here) e = absurd (omega arith)
    same a b (there here) here e = absurd (omega arith)
    same a b (there here) (there here) e = refl

new_tip_set_canonical_example :
    new_tip_set hashes (high ∷ low ∷ []) ≡ new_tip_set hashes (low ∷ high ∷ [])
new_tip_set_canonical_example =
    new_tip_set_canonical hashes (high ∷ low ∷ []) (low ∷ high ∷ []) two-Injective
      (Perm.swap low high [])

-- A CID is one byte.
abbrev one_byte : CidBytes
one_byte = record { bytes = λ c. c ∷ []; cid_from_bytes = first }
  where
    first : List ℕ → Option (ℕ × ℕ)
    first [] = none
    first (x ∷ l) = some (1, x)

one_byte-Reads : Reads one_byte
one_byte-Reads c rest = (refl, omega arith)

decode_key-encode_key_example :
    decode_key one_byte (encode_key one_byte (7 ∷ 7 ∷ [])) ≡ some (7 ∷ 7 ∷ [])
decode_key-encode_key_example = decode_key-encode_key one_byte (7 ∷ 7 ∷ []) one_byte-Reads

min_ticket_block-NoneLess_example :
    In (min_ticket_block hashes both) (blocks both)
    × NoneLess hashes (min_ticket_block hashes both) (blocks both)
min_ticket_block-NoneLess_example = min_ticket_block-NoneLess hashes both
