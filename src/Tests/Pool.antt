-- ===== src/Tests/Pool.antt =====
-- A message pool with two senders, over a chain that knows one of them.
use Prim.Native.Nat.{◌^◌}
use filecoin.Base.{
  subst, ◌<◌, ◌+◌, ◌≡◌, refl, List, [], ◌∷◌, true, false, ◌&&◌, Option, none, some, if◌then◌else◌,
  ◌==◌, ltb, nat_eq, arith,
}
use filecoin.Base.Int.{pos}
use filecoin.Base.Lists.{All}
use filecoin.Base.Map.{find, put}
use filecoin.ChainTypes.Message.{Message, SignedMessage, required_funds}
use filecoin.MessagePool.MsgSet.{Codec, add}
use filecoin.MessagePool.State.{Provider, MessagePool, ok}
use filecoin.MessagePool.Nonce.{get_state_nonce, get_nonce_locked}
use filecoin.MessagePool.Nonce.Fresh.{IsFresh, msgs_of, get_nonce_locked-IsFresh}
use filecoin.MessagePool.Pool.{add_locked, add_message, remove}
use filecoin.MessagePool.Pool.{pending_for}
use filecoin.MessagePool.Pool.Pending.{Rising, pending_for-Rising}
use mathlib.Core.List.{Perm}
use filecoin.MessagePool.Held.{held, is_ok}
use filecoin.MessagePool.Held.Operations.{add_locked_stores}
use filecoin.MessagePool.Accepts.{Checked, Stored, add_message_accepts}
use filecoin.MessagePool.Invariant.{Fits, IsPool}
use filecoin.MessagePool.Invariant.Add.{add_locked-IsPool}
use filecoin.MessagePool.Invariant.Remove.{remove-IsPool}
use filecoin.MessagePool.HeadChange.{head_change}
use filecoin.MessagePool.HeadChange.Apply.{taken, head_change_applies}
use filecoin.MessagePool.HeadChange.Keeps.{head_change-IsPool}
use filecoin.MessagePool.HeadChange.Good.{Roomy}
use filecoin.Tests.{message, actor_with, tip_set}

abbrev pub codec : Codec
codec = record {
  message_cid = λ m. m.nonce;
  sealed_cid = λ m. m.message.nonce;
  sealed_len = λ m. 100;
  sig_bls = 2;
  sig_secp = 1;
}

-- Every sender is at nonce 3 with 1000; every block has the message of sender 5 with nonce 3.
abbrev pub provider : Provider
provider = record {
  codec = codec;
  state_get_actor = λ a ts. some (actor_with 3 1000);
  state_account_key = λ a ts. some a;
  messages_for_block = λ b. some ([], message 5 3 1 ∷ []);
  messages_for_tipset = λ ts. some [];
  load_tip_set = λ k. some (tip_set 1 0 10 1);
  put_signed_message = λ m. true;
  put_message = λ m. true;
  pub_sub_publish = λ m. true;
  is_id = λ a. false;
  serializes = λ m. true;
  put_local = λ m. true;
  verify = λ m. ltb m.message.nonce 9;
  cid_bytes = λ c. c ∷ [];
  valid_add = λ l k. k ∷ l;
  cache_add = λ l k s. put k s l;
  min_gas = λ n h. pos 0;
}

abbrev pub pool : MessagePool
pool = record {
  local_addrs = [];
  pending =
      (5, record { msgs = (3, message 5 3 1) ∷ (4, message 5 4 1) ∷ []; next_nonce = 5 })
      ∷ (6, record { msgs = (3, message 6 3 100) ∷ []; next_nonce = 4 })
      ∷ [];
  cur_ts = none;
  current_size = 3;
  max_tx_pool_size_hi = 30000;
  max_tx_pool_size_lo = 20000;
  prune_trigger = false;
  bls_sig_cache = [];
  sig_val_cache = [];
  changes = [];
}

pub pool-IsPool : IsPool pool
unfolding find
pool-IsPool = record {
  distinct = (refl, (refl, tt));
  sets = (
    record {
      formed = record {
        distinct = (refl, (refl, tt));
        under = ((refl, omega arith), ((refl, omega arith), tt));
      };
      bound = omega arith;
      filled = omega arith;
      own = (refl, (refl, tt));
    },
    (
      record {
        formed = record { distinct = (refl, tt); under = ((refl, omega arith), tt) };
        bound = omega arith;
        filled = omega arith;
        own = (refl, tt);
      },
      tt,
    ),
  );
  counted = refl;
}

takes : is_ok (add_message provider pool (message 5 5 2)).1 ≡ true
unfolding add_message required_funds add find
takes = refl

add_message_accepts_example :
    Checked provider pool (message 5 5 2)
    × Stored (add_message provider pool (message 5 5 2)).0 (message 5 5 2)
add_message_accepts_example = add_message_accepts provider (message 5 5 2) pool takes

add_locked_stores_example : held (add_locked provider pool (message 5 5 2)).0 5 4 ≡ (
    if is_ok (add_locked provider pool (message 5 5 2)).1 && (5 == 5) && (5 == 4)
    then some (message 5 5 2)
    else held pool 5 4)
add_locked_stores_example = add_locked_stores provider pool (message 5 5 2) 5 4

add_locked-IsPool_example : IsPool (add_locked provider pool (message 5 5 2)).0
add_locked-IsPool_example =
    add_locked-IsPool provider (message 5 5 2) (omega arith) pool pool-IsPool

remove-IsPool_example : IsPool (remove pool 6 3)
remove-IsPool_example = remove-IsPool 6 3 (omega arith) pool pool-IsPool

nonce_known : get_nonce_locked provider pool 5 ≡ ok 5
unfolding get_nonce_locked find
nonce_known = refl

get_nonce_locked-IsFresh_example :
    IsFresh (get_state_nonce provider 5 pool.cur_ts) (msgs_of (find 5 pool.pending)) 5
get_nonce_locked-IsFresh_example =
    get_nonce_locked-IsFresh provider pool 5 5 pool-IsPool nonce_known

applies : (head_change provider pool [] (tip_set 2 1 20 2 ∷ [])).1 ≡ true
unfolding head_change
applies = refl

head_change_applies_example :
    held (head_change provider pool [] (tip_set 2 1 20 2 ∷ [])).0 5 3
    ≡ (if taken provider 5 3 (tip_set 2 1 20 2 ∷ []) then none else held pool 5 3)
head_change_applies_example = head_change_applies provider 5 3 pool (tip_set 2 1 20 2 ∷ []) applies

abbrev RoomIn : Option (List Message × List SignedMessage) → Type 0
RoomIn none = Unit
RoomIn (some (bmsgs, smsgs)) = All (λ m. m.nonce + 1 < 2 ^ 64) bmsgs × All Fits smsgs

provider-Roomy : Roomy provider
provider-Roomy b bmsgs smsgs e = subst RoomIn e (tt, (omega arith, tt))

head_change-IsPool_example :
    IsPool (head_change provider pool (tip_set 2 1 20 2 ∷ []) (tip_set 3 1 20 2 ∷ [])).0
head_change-IsPool_example =
    head_change-IsPool provider provider-Roomy pool (tip_set 2 1 20 2 ∷ []) (tip_set 3 1 20 2 ∷ [])
      pool-IsPool

first_sender :
    find 5 pool.pending
    ≡ some (record { msgs = (3, message 5 3 1) ∷ (4, message 5 4 1) ∷ []; next_nonce = 5 })
unfolding find
first_sender = refl

pending_for-Rising_example :
    Rising (pending_for pool 5) × Perm (pending_for pool 5) (message 5 3 1 ∷ message 5 4 1 ∷ [])
pending_for-Rising_example =
    pending_for-Rising pool 5
      (record { msgs = (3, message 5 3 1) ∷ (4, message 5 4 1) ∷ []; next_nonce = 5 }) first_sender
