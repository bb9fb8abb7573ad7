-- ===== src/MessagePool/Push.antt =====
-- Messages of the node's own: Push, PushWithNonce, addLocal, verifyMsgBeforePush, loadLocal and the
-- republishing of runLoop, of chain/messagepool/messagepool.go.
pub mod Fresh
pub mod Republish
use filecoin.Base.{
  ℕ, ◌+◌, List, [], ◌∷◌, ◌++◌, Bool, true, false, not, ◌&&◌, ltb, ◌==◌, if◌then◌else◌, Option, none,
  some, nat_eq,
}
use filecoin.Base.Lists.{take}
use filecoin.Base.Map.{Map, put}
use filecoin.ChainTypes.TipSet.{TipSet}
use filecoin.ChainTypes.Actor.{Actor}
use filecoin.ChainTypes.Message.{SignedMessage, Invalid, valid_for_block_inclusion, u64}
use filecoin.MessagePool.State.{Provider, MessagePool, PoolError, nonce_too_low, Result, ok, err}
use filecoin.MessagePool.Nonce.{get_nonce_locked}
use filecoin.MessagePool.Pool.{add_locked, add_message, pending_for}

pub data PushError : Type 0 where
  not_included : Invalid → PushError
  not_added : PoolError → PushError
  not_serialized no_account_key not_signed not_stored not_published : PushError

-- The message that was pushed, or an error; PushWithNonce returns its message beside an error of the
-- publication.
pub data Pushed : Type 0 where
  pushed : SignedMessage → Pushed
  failed : PushError → Pushed

-- addLocal; whether the message was stored
unfoldable pub add_local : Provider → MessagePool → SignedMessage → MessagePool × Bool
add_local p mp m = (record mp { local_addrs = put m.message.from tt mp.local_addrs }, p.put_local m)

unfoldable pub verify_msg_before_push : Provider → SignedMessage → ℕ → Option Invalid
unfolding valid_for_block_inclusion
verify_msg_before_push p m epoch =
    valid_for_block_inclusion m.message (p.min_gas (p.codec.sealed_len m) epoch)

unfoldable pub published : Provider → SignedMessage → Pushed
published p m = if p.pub_sub_publish m then pushed m else failed not_published

-- Push after Add
unfoldable pub push_added :
    Provider → SignedMessage → MessagePool × Result (Unit {0}) → MessagePool × Pushed
unfolding add_local published
push_added p m (mp, err e) = (mp, failed (not_added e))
push_added p m (mp, ok _) =
    let (mp', stored) = add_local p mp m in
    (mp', if stored then published p m else failed not_stored)

unfoldable pub push_checked :
    Provider → MessagePool → SignedMessage → Option Invalid → MessagePool × Pushed
unfolding push_added add_message
push_checked p mp m (some e) = (mp, failed (not_included e))
push_checked p mp m none =
    let added = push_added p m (add_message p mp m) in
    if p.serializes m then added else (mp, failed not_serialized)

-- Without a current tipset its height is a panic.
unfoldable pub push_at :
    Provider → MessagePool → SignedMessage → Option TipSet → Option (MessagePool × Pushed)
unfolding push_checked verify_msg_before_push
push_at p mp m none = none
push_at p mp m (some ts) = some (push_checked p mp m (verify_msg_before_push p m ts.height))

unfoldable pub push : Provider → MessagePool → SignedMessage → Option (MessagePool × Pushed)
unfolding push_at
push p mp m = push_at p mp m mp.cur_ts

-- PushWithNonce after addLocked; an error of addLocal is only logged
unfoldable pub nonce_added :
    Provider → SignedMessage → MessagePool × Result (Unit {0}) → MessagePool × Pushed
unfolding add_local published
nonce_added p m (mp, err e) = (mp, failed (not_added e))
nonce_added p m (mp, ok _) = ((add_local p mp m).0, published p m)

unfoldable pub nonce_checked :
    Provider → MessagePool → SignedMessage → Option Invalid → MessagePool × Pushed
unfolding nonce_added add_locked
nonce_checked p mp m (some e) = (mp, failed (not_included e))
nonce_checked p mp m none =
    let added = nonce_added p m (add_locked p mp m) in
    if p.serializes m then added else (mp, failed not_serialized)

-- what the callback returns, for the key and the nonce; without a current tipset its height is a
-- panic
unfoldable pub signed_at :
    Provider → MessagePool → SignedMessage → Option TipSet → Option (MessagePool × Pushed)
unfolding nonce_checked verify_msg_before_push
signed_at p mp m none = none
signed_at p mp m (some ts) = some (nonce_checked p mp m (verify_msg_before_push p m ts.height))

unfoldable pub with_signed :
    Provider → MessagePool → Option SignedMessage → Option (MessagePool × Pushed)
unfolding signed_at
with_signed p mp none = some (mp, failed not_signed)
with_signed p mp (some m) = signed_at p mp m mp.cur_ts

unfoldable pub with_nonce :
    Provider
    → MessagePool
    → ℕ
    → (ℕ → ℕ → Option SignedMessage)
    → Result ℕ
    → Option (MessagePool × Pushed)
unfolding with_signed
with_nonce p mp key cb (err e) = some (mp, failed (not_added e))
with_nonce p mp key cb (ok nonce) = with_signed p mp (cb key nonce)

-- the address, or the key of an ID
abbrev pub account_key : Provider → MessagePool → ℕ → Option ℕ
account_key p mp addr = if p.is_id addr then p.state_account_key addr mp.cur_ts else some addr

unfoldable pub with_key :
    Provider
    → MessagePool
    → (ℕ → ℕ → Option SignedMessage)
    → Option ℕ
    → Option (MessagePool × Pushed)
unfolding with_nonce get_nonce_locked
with_key p mp cb none = some (mp, failed no_account_key)
with_key p mp cb (some key) = with_nonce p mp key cb (get_nonce_locked p mp key)

unfoldable pub push_with_nonce :
    Provider → MessagePool → ℕ → (ℕ → ℕ → Option SignedMessage) → Option (MessagePool × Pushed)
unfolding with_key
push_with_nonce p mp addr cb = with_key p mp cb (account_key p mp addr)

-- the loop of runLoop over an address's messages
unfoldable pub from_nonce : ℕ → List SignedMessage → List SignedMessage
from_nonce cur [] = []
from_nonce cur (m ∷ ms) =
    let skipped = from_nonce cur ms in
    let taken = m ∷ from_nonce (u64 (cur + 1)) ms in
    if ltb m.message.nonce cur then skipped else if not (m.message.nonce == cur) then [] else taken

unfoldable pub republish_of : MessagePool → ℕ → Option Actor → List SignedMessage
unfolding from_nonce pending_for
republish_of mp a none = []
republish_of mp a (some act) = from_nonce act.nonce (pending_for mp a)

unfoldable pub republish_from : Provider → MessagePool → Map ℕ (Unit {0}) → List SignedMessage
unfolding republish_of
republish_from p mp [] = []
republish_from p mp ((a, _) ∷ addrs) =
    republish_of mp a (p.state_get_actor a none) ++ republish_from p mp addrs

abbrev pub repub_msg_limit : ℕ
repub_msg_limit = 5

-- what is sent again
unfoldable pub republish_msgs : Provider → MessagePool → List SignedMessage
unfolding republish_from
republish_msgs p mp = take repub_msg_limit (republish_from p mp mp.local_addrs)

-- loadLocal: the stored messages in turn, `none` for one that cannot be read; an error of Add is
-- passed over
unfoldable pub load_local :
    Provider → MessagePool → List (Option SignedMessage) → MessagePool × Bool
unfolding add_message
load_local p mp [] = (mp, true)
load_local p mp (none ∷ ms) = (mp, false)
load_local p mp (some m ∷ ms) = load_local p (add_message p mp m).0 ms
