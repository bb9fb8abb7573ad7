-- ===== src/MessagePool/Held/Operations.antt =====
-- addLocked and remove as operations on the map from sender and nonce to message.
use filecoin.Base.{
  ℕ, ◌≡◌, refl, ap, sym, [], ◌∷◌, ◌&&◌, ◌==◌, ==_iff, if◌then◌else◌, Option, none, some, nat_eq,
  arith, inl, inr, Bool-cases,
}
use filecoin.Base.Map.{Map, find, erase, find-put, find-erase}
use filecoin.Base.Int.{ltb_ℤ}
use filecoin.ChainTypes.Message.{SignedMessage, block_gas_limit}
use filecoin.MessagePool.MsgSet.{MsgSet, after_removal}
use filecoin.MessagePool.State.{Provider, MessagePool}
use filecoin.MessagePool.Pool.{add_locked, cache_signature, remove, remove_from, put_back}
use filecoin.MessagePool.Held.{held, held_in, is_ok, held-add_to_set, pending-cache_signature}

module _ (p : Provider) (mp : MessagePool) (m : SignedMessage) (a n : ℕ) where
  held-cache_signature : held (cache_signature p mp m) a n ≡ held mp a n
  held-cache_signature = ap (λ l. held_in (find a l) n) (pending-cache_signature p mp m a n)

  -- addLocked stores the message in its sender's place for its nonce if it reports no error, and
  -- changes no message elsewhere; with an error no message changes.
  pub add_locked_stores : held (add_locked p mp m).0 a n ≡ (
      if is_ok (add_locked p mp m).1 && (m.message.from == a) && (m.message.nonce == n)
      then some m
      else held mp a n)
  unfolding add_locked
  add_locked_stores = elim (Bool-cases (ltb_ℤ block_gas_limit m.message.gas_limit)) [
    | inl e ↦ rw e held-cache_signature
    | inr e ↦ rw e (elim (Bool-cases (p.put_signed_message m)) [
      | inr f ↦ rw f held-cache_signature
      | inl f ↦ rw f (elim (Bool-cases (p.put_message m.message)) [
        | inr g ↦ rw g held-cache_signature
        | inl g ↦
            rw (g, sym held-cache_signature) (held-add_to_set p (cache_signature p mp m) m a n)
      ])
    ])
  ]

-- the sender's sets after a removal
held-put_back :
    (from nonce a n : ℕ) (ms : MsgSet) (l : Map ℕ MsgSet) (left : Map ℕ SignedMessage)
    → left ≡ erase nonce ms.msgs
    → find from l ≡ some ms
    → held_in (find a (put_back from ms left nonce l)) n
      ≡ (if (from == a) && (nonce == n) then none else held_in (find a l) n)
unfolding put_back find
held-put_back from nonce a n ms l [] e f = elim (Bool-cases (from == a)) [
  | inl y ↦
      rw (find-erase from a l, y, sym ((==_iff from a).0 y), f)
        (ground (arith, find-erase nonce n ms.msgs, ap (find n) e))
  | inr y ↦ rw (find-erase from a l, y) (ground arith)
]
held-put_back from nonce a n ms l (x ∷ left) e f =
    let kept = after_removal (record ms { msgs = x ∷ left }) nonce in
    elim (Bool-cases (from == a)) [
      | inl y ↦
          rw (find-put from a kept l, y, sym ((==_iff from a).0 y), f)
            (ground (arith, find-erase nonce n ms.msgs, ap (find n) e))
      | inr y ↦ rw (find-put from a kept l, y) (ground arith)
    ]

-- Removing a sender's nonce leaves no message there, and every other message of the pool.
pub remove_takes :
    (mp : MessagePool) (from nonce a n : ℕ)
    → held (remove mp from nonce) a n ≡ (if (from == a) && (nonce == n) then none else held mp a n)
unfolding remove remove_from
remove_takes mp from nonce a n = by_set (find from mp.pending) refl
  where
    by_set :
        (s : Option MsgSet)
        → find from mp.pending ≡ s
        → held (remove_from mp from nonce s) a n
          ≡ (if (from == a) && (nonce == n) then none else held mp a n)
    by_set none f = elim (Bool-cases (from == a)) [
      | inl y ↦ rw (y, sym ((==_iff from a).0 y), f) (ground arith)
      | inr y ↦ rw y refl
    ]
    by_set (some ms) f = held-put_back from nonce a n ms mp.pending (erase nonce ms.msgs) refl f
