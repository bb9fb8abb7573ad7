-- ===== src/Tests/Signed.antt =====
-- Replacement by fee and the cache of verified signatures, at concrete messages.
use filecoin.Base.Int.{pos}
use filecoin.Base.{
  ◌*◌, ℕ, zero, suc, ◌≤◌, ◌+◌, ◌≡◌, ◌≢◌, refl, ◌⊎◌, inl, inr, List, [], ◌∷◌, Bool, true, false,
  some, ◌==◌, nat_eq, arith,
}
use filecoin.Base.Lists.{All, In, here, there, length}
use filecoin.Base.Map.{find, put}
use filecoin.ChainTypes.Message.{SignedMessage}
use filecoin.MessagePool.MsgSet.{Codec, MsgSet, cid, add, added, price_too_low}
use filecoin.MessagePool.MsgSet.Fee.{FiveFourths, add_needs_ratio}
use filecoin.MessagePool.State.{Provider}
use filecoin.MessagePool.Signatures.{verify_msg_sig, sig_cache_key}
use filecoin.MessagePool.Signatures.Sound.{Vouched, verify_msg_sig_sound, verify_msg_sig_shared}
use filecoin.Tests.{message}
use filecoin.Tests.Pool.{codec, provider, pool}

abbrev fee_set : MsgSet
fee_set = record { msgs = (3, message 6 3 100) ∷ []; next_nonce = 4 }

-- another message for the nonce 3, of another CID
abbrev dearer : ℕ → SignedMessage
dearer price = record {
  message = (message 6 3 price).message;
  signature = record { kind = 1; bytes = 1 ∷ [] };
}

-- The CID counts the bytes of the signature.
abbrev counting : Codec
counting = record codec { sealed_cid = λ m. length m.signature.bytes }

has_pending : find 3 fee_set.msgs ≡ some (message 6 3 100)
unfolding find
has_pending = refl

other_cid : cid counting (dearer 125) ≢ cid counting (message 6 3 100)
unfolding cid
other_cid e = absurd (omega arith)

add_needs_ratio_example :
    FiveFourths (pos 100) (pos 125)
      × ((add counting fee_set (dearer 125)).1 ≡ added false)
      × ((add counting fee_set (dearer 125)).0.msgs ≡ put 3 (dearer 125) fee_set.msgs)
    ⊎ (4 * 125 + 5 * 0 ≤ 5 * 100 + 4 * 0)
      × ((add counting fee_set (dearer 125)).1 ≡ price_too_low)
      × ((add counting fee_set (dearer 125)).0.msgs ≡ fee_set.msgs)
add_needs_ratio_example =
    add_needs_ratio counting fee_set (dearer 125) (message 6 3 100) has_pending other_cid

abbrev repeat : ℕ → ℕ → List ℕ → List ℕ
repeat zero x l = l
repeat (suc n) x l = x ∷ repeat n x l

-- A signature of 96 bytes that begins with `x`.
abbrev bls_signed : ℕ → SignedMessage
bls_signed x = record {
  message = (message 5 3 1).message;
  signature = record { kind = 2; bytes = x ∷ repeat 95 0 [] };
}

abbrev begins_with_one : List ℕ → Bool
begins_with_one [] = false
begins_with_one (x ∷ l) = x == 1

abbrev verifier : Provider
verifier = record provider { verify = λ m. begins_with_one m.signature.bytes }

keeps : (l : List (List ℕ)) (k x : List ℕ) → In x (verifier.valid_add l k) → (x ≡ k) ⊎ In x l
keeps l k x here = inl refl
keeps l k x (there i) = inr i

verify_msg_sig_sound_example :
    All (Vouched verifier) (verify_msg_sig verifier pool (bls_signed 1)).0.sig_val_cache
    × (((verify_msg_sig verifier pool (bls_signed 1)).1 ≡ false)
        ⊎ (sck : List ℕ) × (sig_cache_key verifier (bls_signed 1) ≡ some sck)
          × Vouched verifier sck)
verify_msg_sig_sound_example = verify_msg_sig_sound verifier keeps pool (bls_signed 1) tt

first_taken : (verify_msg_sig verifier pool (bls_signed 1)).1 ≡ true
unfolding verify_msg_sig
first_taken = refl

same_cid : cid verifier.codec (bls_signed 1) ≡ cid verifier.codec (bls_signed 0)
unfolding cid
same_cid = refl

verify_msg_sig_shared_example :
    (verify_msg_sig verifier (verify_msg_sig verifier pool (bls_signed 1)).0 (bls_signed 0)).1
    ≡ true
verify_msg_sig_shared_example =
    verify_msg_sig_shared verifier (λ l k. here) pool (bls_signed 1) (bls_signed 0) refl refl
      same_cid refl refl first_taken
