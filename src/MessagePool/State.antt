-- ===== src/MessagePool/State.antt =====
-- The fields of MessagePool, and what it calls: chain/messagepool/messagepool.go.
use filecoin.Base.{ℕ, List, [], Bool, false, Option, none}
use filecoin.Base.Map.{Map}
use filecoin.Base.Int.{ℤ}
use filecoin.ChainTypes.BlockHeader.{BlockHeader, Signature}
use filecoin.ChainTypes.TipSet.{TipSet, Key}
use filecoin.ChainTypes.Message.{Message, SignedMessage}
use filecoin.ChainTypes.Actor.{Actor}
use filecoin.MessagePool.MsgSet.{MsgSet, Codec}

-- The Provider interface, and the calls into libraries: `none`, or `false`, is an error.
pub record Provider : Type 0 where
  pub codec : Codec
  pub state_get_actor : ℕ → Option TipSet → Option Actor
  pub state_account_key : ℕ → Option TipSet → Option ℕ
  pub messages_for_block : BlockHeader → Option (List Message × List SignedMessage)
  pub messages_for_tipset : TipSet → Option (List Message)
  pub load_tip_set : Key → Option TipSet
  pub put_signed_message : SignedMessage → Bool
  pub put_message : Message → Bool
  pub pub_sub_publish : SignedMessage → Bool
  -- whether an address is of the ID protocol
  pub is_id : ℕ → Bool
  -- whether the message can be serialised, and its local copy be stored
  pub serializes : SignedMessage → Bool
  pub put_local : SignedMessage → Bool
  -- sigs.Verify
  pub verify : SignedMessage → Bool
  -- the bytes of a CID
  pub cid_bytes : ℕ → List ℕ
  -- Add of the caches of valid signatures and of BLS signatures, which may drop entries
  pub valid_add : List (List ℕ) → List ℕ → List (List ℕ)
  pub cache_add : Map ℕ Signature → ℕ → Signature → Map ℕ Signature
  -- the gas for storing a message of a length on chain at a height
  pub min_gas : ℕ → ℕ → ℤ

pub data Update : Type 0 where
  mpool_add mpool_remove : SignedMessage → Update

pub record MessagePool : Type 0 where
  pub local_addrs : Map ℕ (Unit {0})
  pub pending : Map ℕ MsgSet
  pub cur_ts : Option TipSet
  pub current_size : ℕ
  pub max_tx_pool_size_hi : ℕ
  pub max_tx_pool_size_lo : ℕ
  -- whether the one slot of the channel pruneTrigger is taken
  pub prune_trigger : Bool
  pub bls_sig_cache : Map ℕ Signature
  -- the keys in sigValCache
  pub sig_val_cache : List (List ℕ)
  -- what has been published on `changes`, the newest first
  pub changes : List Update

pub data PoolError : Type 0 where
  message_too_big invalid_to_addr value_too_high invalid_signature : PoolError
  state_lookup_failed nonce_too_low not_enough_funds bad_nonce_ordering messages_failed : PoolError
  gas_limit_too_high put_failed replace_fee_too_low : PoolError

pub data Result (A : Type 0) : Type 0 where
  ok : A → Result A
  err : PoolError → Result A

infixl 5 ◌>>=◌
abbrev pub ◌>>=◌ : {A B : Type 0} → Result A → (A → Result B) → Result B
ok a >>= f = f a
err e >>= f = err e

unfoldable pub new_pool : ℕ → ℕ → MessagePool
new_pool hi lo = record {
  local_addrs = [];
  pending = [];
  cur_ts = none;
  current_size = 0;
  max_tx_pool_size_hi = hi;
  max_tx_pool_size_lo = lo;
  prune_trigger = false;
  bls_sig_cache = [];
  sig_val_cache = [];
  changes = [];
}
