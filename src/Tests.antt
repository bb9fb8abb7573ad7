-- ===== src/Tests.antt =====
-- Runs at concrete inputs, by component, and the data they share.
pub mod Chain
pub mod Sync
pub mod Pool
pub mod Push
pub mod Signed
pub mod State
pub mod Funds
pub mod Index
pub mod Vm
use filecoin.Base.{ℕ, List, [], ◌∷◌, true, false, none, some}
use filecoin.Base.Int.{pos}
use filecoin.ChainTypes.BlockHeader.{BlockHeader, Hashes, Signature}
use filecoin.ChainTypes.TipSet.{TipSet}
use filecoin.ChainTypes.Message.{Message, SignedMessage}
use filecoin.ChainTypes.Actor.{Actor}

-- A block's CID is the number of its miner.
abbrev pub hashes : Hashes
hashes = record { cid_of = λ b. b.miner; cid_bytes = λ c. c ∷ []; digest = λ bytes. bytes }

abbrev pub block : ℕ → ℕ → ℕ → ℕ → BlockHeader
block miner parent weight height = record {
  miner = miner;
  ticket = record { vrf_proof = miner ∷ [] };
  win_count = pos 1;
  vrf_election = [];
  beacon_entries = [];
  win_po_st_proof = [];
  parents = parent ∷ [];
  parent_weight = pos weight;
  height = height;
  parent_state_root = 0;
  parent_message_receipts = 0;
  messages = 0;
  bls_aggregate = none;
  timestamp = 0;
  block_sig = none;
  fork_signaling = 0;
  validated = true;
}

abbrev pub tip_set : ℕ → ℕ → ℕ → ℕ → TipSet
tip_set miner parent weight height = record {
  cids = miner ∷ [];
  blk0 = block miner parent weight height;
  blks_rest = [];
  height = height;
}

-- A message of the sender with the nonce and the gas price, signed by a signature of the kind 1.
abbrev pub message : ℕ → ℕ → ℕ → SignedMessage
message from nonce price = record {
  message = record {
    version = pos 0;
    to = 99;
    from = from;
    nonce = nonce;
    value = pos 5;
    gas_price = pos price;
    gas_limit = pos 10;
    method = 0;
    params = [];
  };
  signature = record { kind = 1; bytes = [] };
}

abbrev pub actor_with : ℕ → ℕ → Actor
actor_with nonce balance = record { code = 1; head = 0; nonce = nonce; balance = pos balance }
