-- ===== src/MessagePool/Pool.antt =====
-- Adding to, removing from and reading the pool: chain/messagepool/messagepool.go. The locks make
-- each operation one step. A handler returns the pool beside its error, since what it wrote before
-- an error stays written.
pub mod Pending
use filecoin.Base.{
  ℕ, ◌+◌, ◌-◌, ◌*◌, List, [], ◌∷◌, ◌++◌, Bool, true, false, not, ◌||◌, ltb, ◌==◌, if◌then◌else◌,
  Option, none, some, nat_eq,
}
use filecoin.Base.Map.{Map, find, put, erase, values}
use filecoin.Base.Sort.{sort_by}
use filecoin.Base.Int.{ℤ, ltb_ℤ}
use filecoin.ChainTypes.TipSet.{TipSet}
use filecoin.ChainTypes.Message.{
  SignedMessage, undef, block_gas_limit, total_filecoin, required_funds,
}
use filecoin.MessagePool.MsgSet.{
  MsgSet, cid, new_msg_set, add, Added, added, price_too_low, after_removal,
}
use filecoin.MessagePool.Nonce.{get_state_nonce, get_state_balance}
use filecoin.MessagePool.Signatures.{verify_msg_sig}
use filecoin.MessagePool.State.{
  Provider, MessagePool, Update, mpool_add, mpool_remove, message_too_big, invalid_to_addr,
  value_too_high, invalid_signature, nonce_too_low, not_enough_funds, gas_limit_too_high,
  put_failed, replace_fee_too_low, Result, ok, err,
}

-- the set of the sender, or a new one
unfoldable pub set_or_new : Option MsgSet → MsgSet
unfolding new_msg_set
set_or_new none = new_msg_set
set_or_new (some ms) = ms

unfoldable pub cache_signature : Provider → MessagePool → SignedMessage → MessagePool
unfolding cid
cache_signature p mp m =
    if m.signature.kind == p.codec.sig_bls
    then record mp { bls_sig_cache = p.cache_add mp.bls_sig_cache (cid p.codec m) m.signature }
    else mp

-- currentSize++, with the signal to prune once the high limit is passed
unfoldable pub count_one : MessagePool → MessagePool
count_one mp = record mp {
  current_size = mp.current_size + 1;
  prune_trigger = mp.prune_trigger || ltb mp.max_tx_pool_size_hi (mp.current_size + 1);
}

unfoldable pub publish : Update → MessagePool → MessagePool
publish u mp = record mp { changes = u ∷ mp.changes }

-- addLocked after `mset.add`, by its results
unfoldable pub after_add :
    MessagePool → SignedMessage → MsgSet × Added → MessagePool × Result (Unit {0})
unfolding count_one publish
after_add mp m (ms, price_too_low) =
    (record mp { pending = put m.message.from ms mp.pending }, err replace_fee_too_low)
after_add mp m (ms, added true) = (
  publish (mpool_add m) (count_one (record mp { pending = put m.message.from ms mp.pending })),
  ok tt,
)
after_add mp m (ms, added false) =
    (publish (mpool_add m) (record mp { pending = put m.message.from ms mp.pending }), ok tt)

unfoldable pub add_to_set : Provider → MessagePool → SignedMessage → MessagePool × Result (Unit {0})
unfolding after_add set_or_new
add_to_set p mp m = after_add mp m (add p.codec (set_or_new (find m.message.from mp.pending)) m)

unfoldable pub add_locked : Provider → MessagePool → SignedMessage → MessagePool × Result (Unit {0})
unfolding add_to_set cache_signature
add_locked p mp m =
    let mp' = cache_signature p mp m in
    if ltb_ℤ block_gas_limit m.message.gas_limit
    then (mp', err gas_limit_too_high)
    else if not (p.put_signed_message m)
    then (mp', err put_failed)
    else if not (p.put_message m.message)
    then (mp', err put_failed)
    else add_to_set p mp' m

-- addTs, by what the chain state says of the sender
unfoldable pub add_checked :
    Provider → MessagePool → SignedMessage → Result ℕ → Result ℤ → MessagePool × Result (Unit {0})
unfolding add_locked
add_checked p mp m (err e) _ = (mp, err e)
add_checked p mp m (ok snonce) (err e) =
    if ltb m.message.nonce snonce then (mp, err nonce_too_low) else (mp, err e)
add_checked p mp m (ok snonce) (ok balance) =
    if ltb m.message.nonce snonce
    then (mp, err nonce_too_low)
    else if ltb_ℤ balance (required_funds m.message)
    then (mp, err not_enough_funds)
    else add_locked p mp m

unfoldable pub add_ts :
    Provider → MessagePool → SignedMessage → Option TipSet → MessagePool × Result (Unit {0})
unfolding add_checked get_state_nonce get_state_balance
add_ts p mp m cur_ts =
    add_checked p mp m (get_state_nonce p m.message.from cur_ts)
      (get_state_balance p m.message.from cur_ts)

-- Add after the signature is checked
unfoldable pub add_verified :
    Provider → SignedMessage → MessagePool × Bool → MessagePool × Result (Unit {0})
unfolding add_ts
add_verified p m (mp, true) = add_ts p mp m mp.cur_ts
add_verified p m (mp, false) = (mp, err invalid_signature)

unfoldable pub add_message :
    Provider → MessagePool → SignedMessage → MessagePool × Result (Unit {0})
unfolding add_verified verify_msg_sig
add_message p mp m =
    if ltb (32 * 1024) (p.codec.sealed_len m)
    then (mp, err message_too_big)
    else if m.message.to == undef
    then (mp, err invalid_to_addr)
    else if not (ltb_ℤ m.message.value total_filecoin)
    then (mp, err value_too_high)
    else add_verified p m (verify_msg_sig p mp m)

-- remove, by the sender's set and by the message that is removed from it; the size counts the
-- messages, so that it is not 0 here
unfoldable pub publish_removal : Option SignedMessage → MessagePool → MessagePool
unfolding publish
publish_removal none mp = mp
publish_removal (some m) mp = record (publish (mpool_remove m) mp) {
  current_size = mp.current_size - 1;
}

-- the pool's sets after a nonce is deleted from the sender's set, `rest` being what is left of it
unfoldable pub put_back : ℕ → MsgSet → Map ℕ SignedMessage → ℕ → Map ℕ MsgSet → Map ℕ MsgSet
unfolding after_removal
put_back from ms [] nonce pending = erase from pending
put_back from ms (m ∷ rest) nonce pending =
    put from (after_removal (record ms { msgs = m ∷ rest }) nonce) pending

unfoldable pub remove_from : MessagePool → ℕ → ℕ → Option MsgSet → MessagePool
unfolding publish_removal put_back
remove_from mp from nonce none = mp
remove_from mp from nonce (some ms) = record (publish_removal (find nonce ms.msgs) mp) {
  pending = put_back from ms (erase nonce ms.msgs) nonce mp.pending;
}

unfoldable pub remove : MessagePool → ℕ → ℕ → MessagePool
unfolding remove_from
remove mp from nonce = remove_from mp from nonce (find from mp.pending)

abbrev pub nonce_less : SignedMessage → SignedMessage → Bool
nonce_less a b = ltb a.message.nonce b.message.nonce

unfoldable pub pending_of : Option MsgSet → List SignedMessage
pending_of none = []
pending_of (some ms) = sort_by nonce_less (values ms.msgs)

unfoldable pub pending_for : MessagePool → ℕ → List SignedMessage
unfolding pending_of
pending_for mp a = pending_of (find a mp.pending)

unfoldable pub pending_all : MessagePool → Map ℕ MsgSet → List SignedMessage
unfolding pending_for
pending_all mp [] = []
pending_all mp ((a, ms) ∷ rest) = pending_for mp a ++ pending_all mp rest
