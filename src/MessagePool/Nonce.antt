-- ===== src/MessagePool/Nonce.antt =====
-- The nonce of a sender by the chain and by the pool: getStateNonce, getStateBalance and
-- getNonceLocked of chain/messagepool/messagepool.go.
pub mod Fresh
use filecoin.Base.{
  ℕ, ◌+◌, List, [], ◌∷◌, true, false, ltb, ◌==◌, if◌then◌else◌, Option, none, some, nat_eq,
}
use filecoin.Base.Map.{find}
use filecoin.Base.Int.{ℤ}
use filecoin.ChainTypes.TipSet.{TipSet}
use filecoin.ChainTypes.Message.{Message, u64}
use filecoin.MessagePool.MsgSet.{MsgSet}
use filecoin.MessagePool.State.{
  Provider, MessagePool, state_lookup_failed, bad_nonce_ordering, messages_failed, Result, ok, err,
  ◌>>=◌,
}

-- the loop of getStateNonce over the messages of the tipset
unfoldable pub count_nonces : ℕ → ℕ → List Message → Result ℕ
count_nonces addr base [] = ok base
count_nonces addr base (m ∷ ms) = elim (m.from == addr) [
  | true ↦ elim (m.nonce == base) [
    | true ↦ count_nonces addr (u64 (base + 1)) ms
    | false ↦ err bad_nonce_ordering
  ]
  | false ↦ count_nonces addr base ms
]

unfoldable pub count_in : Provider → ℕ → ℕ → Option TipSet → Result ℕ
unfolding count_nonces
count_in p addr base none = ok base
count_in p addr base (some ts) = elim (p.messages_for_tipset ts) [
  | none ↦ err messages_failed
  | some msgs ↦ count_nonces addr base msgs
]

unfoldable pub get_state_nonce : Provider → ℕ → Option TipSet → Result ℕ
unfolding count_in
get_state_nonce p addr cur_ts = elim (p.state_get_actor addr cur_ts) [
  | none ↦ err state_lookup_failed
  | some act ↦ count_in p addr act.nonce cur_ts
]

unfoldable pub get_state_balance : Provider → ℕ → Option TipSet → Result ℤ
get_state_balance p addr ts = elim (p.state_get_actor addr ts) [
  | none ↦ err state_lookup_failed
  | some act ↦ ok act.balance
]

-- by the sender's set
unfoldable pub nonce_over : ℕ → Option MsgSet → ℕ
nonce_over state_nonce none = state_nonce
nonce_over state_nonce (some ms) =
    if ltb ms.next_nonce state_nonce then state_nonce else ms.next_nonce

unfoldable pub get_nonce_locked : Provider → MessagePool → ℕ → Result ℕ
unfolding get_state_nonce nonce_over
get_nonce_locked p mp addr = do
  state_nonce ← get_state_nonce p addr mp.cur_ts
  ok (nonce_over state_nonce (find addr mp.pending))
