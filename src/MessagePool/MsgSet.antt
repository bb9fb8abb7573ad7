-- ===== src/MessagePool/MsgSet.antt =====
-- msgSet of chain/messagepool/messagepool.go: the pending messages of one sender, by nonce.
pub mod Invariant
pub mod Fee
use filecoin.Base.{
  ℕ, suc, ◌+◌, ◌*◌, ◌/◌, List, [], ◌∷◌, Bool, true, false, not, ◌||◌, ltb, leb, ◌==◌, if◌then◌else◌,
  Option, none, some, nat_eq,
}
use filecoin.Base.Lists.{length}
use filecoin.Base.Map.{Map, find, put, erase}
use filecoin.Base.Int.{ℤ, pos, negsuc, ◌+ℤ◌, ◌*ℤ◌, ltb_ℤ, leb_ℤ}
use filecoin.ChainTypes.Message.{Message, SignedMessage, u64}

-- What the code takes from the serialisation and the hashing of messages, and from the numbers of
-- the kinds of signatures: a CID of the message, one of it with its signature, the lengths.
pub record Codec : Type 0 where
  pub message_cid : Message → ℕ
  pub sealed_cid : SignedMessage → ℕ
  pub sealed_len : SignedMessage → ℕ
  pub sig_bls : ℕ
  pub sig_secp : ℕ

-- SignedMessage.Cid: a BLS signature is aggregated in the block, and is not hashed
unfoldable pub cid : Codec → SignedMessage → ℕ
cid c m = if m.signature.kind == c.sig_bls then c.message_cid m.message else c.sealed_cid m

pub record MsgSet : Type 0 where
  pub msgs : Map ℕ SignedMessage
  pub next_nonce : ℕ

unfoldable pub new_msg_set : MsgSet
new_msg_set = record { msgs = []; next_nonce = 0 }

-- types.BigDiv by a positive number, which rounds down
unfoldable pub div_ℤ : ℤ → ℕ → ℤ
div_ℤ (pos n) d = pos (n / d)
div_ℤ (negsuc n) d = negsuc (n / d)

-- uint64((ReplaceByFeeRatio - 1) * 256), for the ratio 1.25
abbrev pub rbf_num : ℕ
rbf_num = 64

abbrev pub rbf_denom : ℕ
rbf_denom = 256

unfoldable pub raise_price : ℤ → ℤ
unfolding div_ℤ ◌+ℤ◌ ◌*ℤ◌
raise_price p = p +ℤ div_ℤ (p *ℤ pos rbf_num) rbf_denom

-- the price from which a message replaces one of the price given
unfoldable pub min_price : ℤ → ℤ
unfolding raise_price
min_price p = raise_price p +ℤ pos 1

abbrev pub is_empty {ℓ} : {A : Type ℓ} → List A → Bool
is_empty [] = true
is_empty (x ∷ xs) = false

-- the nonce after that of `m`, where `m` is the first message or not below the next nonce
unfoldable pub advance : MsgSet → ℕ → MsgSet
advance ms nonce =
    if is_empty ms.msgs || leb ms.next_nonce nonce
    then record ms { next_nonce = u64 (nonce + 1) }
    else ms

unfoldable pub store : MsgSet → SignedMessage → MsgSet
store ms m = record ms { msgs = put m.message.nonce m ms.msgs }

-- the result of `add`: whether the message is one more, or the refusal for a low price
pub data Added : Type 0 where
  added : Bool → Added
  price_too_low : Added

-- by the message that has the nonce of `m`
unfoldable pub add_over : Codec → MsgSet → Option SignedMessage → SignedMessage → MsgSet × Added
unfolding store cid
add_over c ms none m = (store ms m, added true)
add_over c ms (some ex) m =
    if cid c m == cid c ex || leb_ℤ (min_price ex.message.gas_price) m.message.gas_price
    then (store ms m, added false)
    else (ms, price_too_low)

unfoldable pub add : Codec → MsgSet → SignedMessage → MsgSet × Added
unfolding add_over advance
add c ms m = add_over c (advance ms m.message.nonce) (find m.message.nonce ms.msgs) m

-- the largest nonce in the set, 0 if there is none
unfoldable pub max_nonce : Map ℕ SignedMessage → ℕ → ℕ
max_nonce [] max = max
max_nonce ((n, m) ∷ rest) max = max_nonce rest (if ltb max n then n else max)

-- the set after `remove` has deleted a nonce, if any message is left
unfoldable pub after_removal : MsgSet → ℕ → MsgSet
unfolding max_nonce
after_removal ms nonce =
    let max = max_nonce ms.msgs 0 in
    record ms { next_nonce = u64 ((if ltb max nonce then nonce else max) + 1) }
