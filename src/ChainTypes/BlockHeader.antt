-- ===== src/ChainTypes/BlockHeader.antt =====
-- chain/types/blockheader.go. A CID, an address and a signature's kind are identifiers that the
-- code compares; a byte string is the list of its bytes. `validated` is a local cache flag.
-- The pointers to the ticket and to the election proof are taken not to be nil, as in every block
-- that has passed the syncer's checks.
use filecoin.Base.{ℕ, List, [], ◌∷◌, Bool, true, false, ltb, ◌==◌, if◌then◌else◌, Option}
use filecoin.Base.Lists.{list_eq, length}
use filecoin.Base.Int.{ℤ}

pub record Ticket : Type 0 where
  pub vrf_proof : List ℕ

pub record BeaconEntry : Type 0 where
  pub round : ℕ
  pub bytes : List ℕ

pub record Signature : Type 0 where
  pub kind : ℕ
  pub bytes : List ℕ

pub record BlockHeader : Type 0 where
  pub miner : ℕ
  pub ticket : Ticket
  pub win_count : ℤ  -- ElectionProof.WinCount
  pub vrf_election : List ℕ  -- ElectionProof.VRFProof
  pub beacon_entries : List BeaconEntry
  pub win_po_st_proof : List (ℕ × List ℕ)  -- kinds and bytes
  pub parents : List ℕ
  pub parent_weight : ℤ
  pub height : ℕ
  pub parent_state_root : ℕ
  pub parent_message_receipts : ℕ
  pub messages : ℕ
  pub bls_aggregate : Option Signature
  pub timestamp : ℕ
  pub block_sig : Option Signature
  pub fork_signaling : ℕ
  pub validated : Bool

-- What the code takes from hashing and from go-cid: the CID of a header (the hash of its
-- serialisation), the bytes of a CID, and BLAKE2b-256.
pub record Hashes : Type 0 where
  pub cid_of : BlockHeader → ℕ
  pub cid_bytes : ℕ → List ℕ
  pub digest : List ℕ → List ℕ

-- bytes.Compare(a, b) < 0
unfoldable pub bytes_less : List ℕ → List ℕ → Bool
bytes_less a [] = false
bytes_less [] (y ∷ ys) = true
bytes_less (x ∷ xs) (y ∷ ys) =
    let rest = bytes_less xs ys in if ltb x y then true else if x == y then rest else false

unfoldable pub ticket_equals : Ticket → Ticket → Bool
ticket_equals t o = list_eq t.vrf_proof o.vrf_proof

unfoldable pub ticket_less : Hashes → Ticket → Ticket → Bool
unfolding bytes_less
ticket_less h t o = bytes_less (h.digest t.vrf_proof) (h.digest o.vrf_proof)

unfoldable pub cid_arrs_contains : List ℕ → ℕ → Bool
cid_arrs_contains [] b = false
cid_arrs_contains (elem ∷ a) b =
    let rest = cid_arrs_contains a b in if elem == b then true else rest

-- the second loop of CidArrsEqual, over the set of the CIDs of `a`
all_contained : List ℕ → List ℕ → Bool
unfolding cid_arrs_contains
all_contained a [] = true
all_contained a (c ∷ b) =
    let rest = all_contained a b in if cid_arrs_contains a c then rest else false

unfoldable pub cid_arrs_equal : List ℕ → List ℕ → Bool
unfolding all_contained
cid_arrs_equal a b = if length a == length b then all_contained a b else false
