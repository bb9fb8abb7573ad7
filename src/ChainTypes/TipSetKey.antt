-- ===== src/ChainTypes/TipSetKey.antt =====
-- chain/types/tipset_key.go: the bytes of a key, and the CIDs read back from them.
use filecoin.Base.{
  ℕ, zero, suc, ◌≤◌, ◌<◌, ◌≡◌, refl, ap, sym, ◌∙◌, List, [], ◌∷◌, ◌++◌, Option, none, some, arith,
}
use filecoin.Base.Lists.{length, drop, length-append}

-- What the code takes from the CID library: a CID's bytes, and the reading of a CID at the front of
-- some bytes, with the number of bytes read.
pub record CidBytes : Type 0 where
  pub bytes : ℕ → List ℕ
  pub cid_from_bytes : List ℕ → Option (ℕ × ℕ)

unfoldable pub encode_key : CidBytes → List ℕ → List ℕ
encode_key b [] = []
encode_key b (c ∷ cids) = b.bytes c ++ encode_key b cids

-- The loop of decodeKey: `fuel` bounds the rounds. A read of no bytes would not end it.
unfoldable pub decode_from : CidBytes → ℕ → List ℕ → Option (List ℕ)
decode_from b fuel [] = some []
decode_from b zero (x ∷ l) = none
decode_from b (suc fuel) (x ∷ l) = elim (b.cid_from_bytes (x ∷ l)) [
  | none ↦ none
  | some (nr, c) ↦ elim (decode_from b fuel (drop nr (x ∷ l))) [
    | none ↦ none
    | some cids ↦ some (c ∷ cids)
  ]
]

-- The bytes are one round for each at most, where a CID has bytes.
unfoldable pub decode_key : CidBytes → List ℕ → Option (List ℕ)
unfolding decode_from
decode_key b encoded = decode_from b (length encoded) encoded

-- A CID's bytes are read back, whatever follows, and there are some.
abbrev pub Reads : CidBytes → Type 0
Reads b =
    (c : ℕ) (rest : List ℕ)
    → (b.cid_from_bytes (b.bytes c ++ rest) ≡ some (length (b.bytes c), c))
      × (0 < length (b.bytes c))

drop-append : (xs ys : List ℕ) → drop (length xs) (xs ++ ys) ≡ ys
drop-append [] ys = refl
drop-append (x ∷ xs) ys = drop-append xs ys

decode_from_encoded :
    (b : CidBytes) (reads : Reads b) (cids : List ℕ) (fuel : ℕ)
    → length (encode_key b cids) ≤ fuel
    → decode_from b fuel (encode_key b cids) ≡ some cids
unfolding encode_key decode_from
decode_from_encoded b reads [] fuel h = refl
decode_from_encoded b reads (c ∷ cids) fuel h =
    one (b.bytes c) fuel (reads c (encode_key b cids)) refl h
      (drop-append (b.bytes c) (encode_key b cids)) (λ f g. decode_from_encoded b reads cids f g)
  where
    one :
        (bs : List ℕ) (fuel : ℕ)
        → (b.cid_from_bytes (bs ++ encode_key b cids) ≡ some (length bs, c)) × (0 < length bs)
        → bs ≡ b.bytes c
        → length (bs ++ encode_key b cids) ≤ fuel
        → drop (length bs) (bs ++ encode_key b cids) ≡ encode_key b cids
        → ((f : ℕ)
            → length (encode_key b cids) ≤ f
            → decode_from b f (encode_key b cids) ≡ some cids)
        → decode_from b fuel (bs ++ encode_key b cids) ≡ some (c ∷ cids)
    one [] fuel (r, p) e h d rest = absurd (omega arith)
    one (x ∷ bs) zero (r, p) e h d rest = absurd (omega arith)
    one (x ∷ bs) (suc fuel) (r, p) e h d rest =
        let more : decode_from b fuel (encode_key b cids) ≡ some cids =
          rest fuel (omega (arith, h, length-append bs (encode_key b cids))) in
        rw r (rw d (rw more refl))

-- The CIDs of a key are read back from its bytes, and the loop that reads them ends, where a
-- CID's bytes are read back whatever follows them.
pub decode_key-encode_key :
    (b : CidBytes) (cids : List ℕ) → Reads b → decode_key b (encode_key b cids) ≡ some cids
unfolding decode_key
decode_key-encode_key b cids reads =
    decode_from_encoded b reads cids (length (encode_key b cids)) (omega arith)

-- Keys with the same bytes are of the same CIDs, in the same order.
pub encode_key-injective :
    (b : CidBytes) (cids cids' : List ℕ)
    → Reads b
    → encode_key b cids ≡ encode_key b cids'
    → cids ≡ cids'
encode_key-injective b cids cids' reads e =
    let p : some cids ≡ some cids' =
      sym (decode_key-encode_key b cids reads)
      ∙ ap (decode_key b) e
      ∙ decode_key-encode_key b cids' reads in
    cc
