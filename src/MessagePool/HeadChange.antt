-- ===== src/MessagePool/HeadChange.antt =====
-- HeadChange of chain/messagepool/messagepool.go: the messages of reverted blocks return to the
-- pool, those of applied blocks leave it.
pub mod Apply
pub mod Good
pub mod Keeps
use filecoin.Base.{
  ℕ, List, [], ◌∷◌, ◌++◌, Bool, true, false, Option, none, some, nat_eq, map, if◌then◌else◌,
}
use filecoin.Base.Map.{Map, find, put, erase, values}
use filecoin.ChainTypes.BlockHeader.{BlockHeader, Signature}
use filecoin.ChainTypes.TipSet.{TipSet, blocks, parents}
use filecoin.ChainTypes.Message.{Message, SignedMessage}
use filecoin.MessagePool.State.{Provider, MessagePool}
use filecoin.MessagePool.Pool.{add_locked, remove}

unfoldable pub signed_with : Message → Option Signature → List SignedMessage
signed_with m none = []
signed_with m (some sig) = record { message = m; signature = sig } ∷ []

-- RecoverSig for each of a block's BLS messages; one whose signature is not cached is passed over
unfoldable pub recover_all : Provider → Map ℕ Signature → List Message → List SignedMessage
unfolding signed_with
recover_all p cache [] = []
recover_all p cache (m ∷ ms) =
    signed_with m (find (p.codec.message_cid m) cache) ++ recover_all p cache ms

-- MessagesForBlocks; `none` is its error
unfoldable pub messages_for_blocks :
    Provider → Map ℕ Signature → List BlockHeader → Option (List SignedMessage)
unfolding recover_all
messages_for_blocks p cache [] = some []
messages_for_blocks p cache (b ∷ bs) = elim (p.messages_for_block b) [
  | none ↦ none
  | some (bmsgs, smsgs) ↦ elim (messages_for_blocks p cache bs) [
    | none ↦ none
    | some rest ↦ some (smsgs ++ recover_all p cache bmsgs ++ rest)
  ]
]

-- rmsgs: what the reverts bring back, by sender and nonce
abbrev pub Reverted : Type 0
Reverted = Map ℕ (Map ℕ SignedMessage)

unfoldable pub nonces_of : Option (Map ℕ SignedMessage) → Map ℕ SignedMessage
nonces_of none = []
nonces_of (some s) = s

-- the closure `add`
unfoldable pub note : Reverted → SignedMessage → Reverted
unfolding nonces_of
note r m = put m.message.from (put m.message.nonce m (nonces_of (find m.message.from r))) r

unfoldable pub note_all : Reverted → List SignedMessage → Reverted
unfolding note
note_all r [] = r
note_all r (m ∷ ms) = note_all (note r m) ms

abbrev pub State : Type 0
State = MessagePool × Reverted

-- the closure `rm`, by the reverted messages of the sender, and by that of the nonce
unfoldable pub take_back : State → ℕ → ℕ → Map ℕ SignedMessage → Option SignedMessage → State
take_back (mp, r) from nonce s none = (remove mp from nonce, r)
take_back (mp, r) from nonce s (some m) = (mp, put from (erase nonce s) r)

unfoldable pub rm_by : State → ℕ → ℕ → Option (Map ℕ SignedMessage) → State
unfolding take_back
rm_by (mp, r) from nonce none = (remove mp from nonce, r)
rm_by (mp, r) from nonce (some s) = take_back (mp, r) from nonce s (find nonce s)

unfoldable pub rm : State → Message → State
unfolding rm_by
rm (mp, r) m = rm_by (mp, r) m.from m.nonce (find m.from r)

unfoldable pub rm_all : State → List Message → State
unfolding rm
rm_all st [] = st
rm_all st (m ∷ ms) = rm_all (rm st m) ms

-- the loop over `revert`; on an error the pool keeps what was done
unfoldable pub revert_all : Provider → State → List TipSet → State × Bool
unfolding note_all messages_for_blocks
revert_all p st [] = (st, true)
revert_all p (mp, r) (ts ∷ rest) = elim (p.load_tip_set (parents ts)) [
  | none ↦ ((mp, r), false)
  | some pts ↦ elim (messages_for_blocks p mp.bls_sig_cache (blocks ts)) [
    | none ↦ ((mp, r), false)
    | some msgs ↦ revert_all p (record mp { cur_ts = some pts }, note_all r msgs) rest
  ]
]

unfoldable pub apply_blocks : Provider → State → List BlockHeader → State × Bool
unfolding rm_all
apply_blocks p st [] = (st, true)
apply_blocks p st (b ∷ bs) = elim (p.messages_for_block b) [
  | none ↦ (st, false)
  | some (bmsgs, smsgs) ↦ apply_blocks p (rm_all (rm_all st (map (λ m. m.message) smsgs)) bmsgs) bs
]

-- the loop over `apply`, by what a tipset's blocks gave
unfoldable pub set_cur_ts : TipSet → State → State
set_cur_ts ts (mp, r) = (record mp { cur_ts = some ts }, r)

unfoldable pub apply_all : Provider → State → List TipSet → State × Bool
unfolding apply_blocks set_cur_ts
apply_all p st [] = (st, true)
apply_all p st (ts ∷ rest) =
    let (st', good) = apply_blocks p st (blocks ts) in
    let after = apply_all p (set_cur_ts ts st') rest in if good then after else (st', false)

-- addSkipChecks for each message; errors are logged only
unfoldable pub readd : Provider → MessagePool → List SignedMessage → MessagePool
readd p mp [] = mp
readd p mp (m ∷ ms) = readd p (add_locked p mp m).0 ms

unfoldable pub readd_all : Provider → MessagePool → List (Map ℕ SignedMessage) → MessagePool
unfolding readd
readd_all p mp [] = mp
readd_all p mp (s ∷ ss) = readd_all p (readd p mp (values s)) ss

unfoldable pub finish : Provider → State × Bool → MessagePool × Bool
unfolding readd_all
finish p ((mp, r), false) = (mp, false)
finish p ((mp, r), true) = (readd_all p mp (values r), true)

unfoldable pub apply_after : Provider → List TipSet → State × Bool → State × Bool
unfolding apply_all
apply_after p apply (st, false) = (st, false)
apply_after p apply (st, true) = apply_all p st apply

-- HeadChange: the pool, and whether there was no error
unfoldable pub head_change : Provider → MessagePool → List TipSet → List TipSet → MessagePool × Bool
unfolding finish apply_after revert_all
head_change p mp revert apply = finish p (apply_after p apply (revert_all p (mp, []) revert))
