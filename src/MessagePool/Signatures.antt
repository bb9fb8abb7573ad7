-- ===== src/MessagePool/Signatures.antt =====
-- The cache of verified signatures: sigCacheKey and VerifyMsgSig of
-- chain/messagepool/messagepool.go.
pub mod Sound
use filecoin.Base.{
  ℕ, List, ◌++◌, Bool, true, false, ltb, ◌==◌, if◌then◌else◌, Option, none, some, nat_eq,
}
use filecoin.Base.Lists.{length, drop, any, list_eq}
use filecoin.ChainTypes.Message.{SignedMessage}
use filecoin.MessagePool.MsgSet.{cid}
use filecoin.MessagePool.State.{Provider, MessagePool}

-- sigCacheKey: the CID's bytes, for a BLS signature with those of the signature from byte 64 on
unfoldable pub sig_cache_key : Provider → SignedMessage → Option (List ℕ)
unfolding cid
sig_cache_key p m =
    if m.signature.kind == p.codec.sig_bls
    then (if ltb (length m.signature.bytes) 90
        then none
        else some (p.cid_bytes (cid p.codec m) ++ drop 64 m.signature.bytes))
    else if m.signature.kind == p.codec.sig_secp
    then some (p.cid_bytes (cid p.codec m))
    else none

-- VerifyMsgSig, by the cache's key
unfoldable pub verify_by_key :
    Provider → MessagePool → SignedMessage → Option (List ℕ) → MessagePool × Bool
verify_by_key p mp m none = (mp, false)
verify_by_key p mp m (some sck) =
    if any (list_eq sck) mp.sig_val_cache
    then (mp, true)
    else if p.verify m
    then (record mp { sig_val_cache = p.valid_add mp.sig_val_cache sck }, true)
    else (mp, false)

unfoldable pub verify_msg_sig : Provider → MessagePool → SignedMessage → MessagePool × Bool
unfolding verify_by_key sig_cache_key
verify_msg_sig p mp m = verify_by_key p mp m (sig_cache_key p m)
